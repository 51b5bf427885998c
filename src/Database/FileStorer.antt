-- ===== src/Database/FileStorer.antt =====
-- `FileDB` as a `Storer`.
use mathlib.Core.Option
use gonit.Base.{
  String, ◌≡◌, refl, Option, none, some, arith, Outcome, returns, ◌>>=◌, if◌then◌else◌, same_text,
  is_some, any, inl, inr, Bool-cases, Option-cases,
}
use gonit.Base.Table.{lookup, adjust, lookup-adjust, any-keys}
use gonit.Base.Sort.{any-sort_strings}
use gonit.Files.{Disk, open_file_secure}
use gonit.Files as Files
use gonit.Database.{
  Db, Codec, FileDb, get, set, exists, delete, keys_of, entries, rewrite, serialize,
  serialize_to_file,
}
use gonit.Database.Storage.{IsReady, set_lem, delete_lem, get-eq-lookup}
use gonit.Database.Storer.{Storer}

module _ {V : Type 0} where
  abbrev pub modify : Db V → String → (V → V) → Db V
  modify db k f = record { storage = Option.map (adjust k f) db.storage }

  pub get-modify :
      (db : Db V) (j k : String) (f : V → V)
      → get (modify db k f) j ≡ (if same_text k j then Option.map f (get db j) else get db j)
  unfolding lookup
  get-modify db j k f =
      rw (get-eq-lookup, get-eq-lookup)
        (elim (Option-cases db.storage) [
          | inl e ↦ rw e (ground arith)
          | inr (m, e) ↦ rw e (lookup-adjust j k f m)
        ])

  pub delete-IsReady : (db : Db V) (k : String) → IsReady db → IsReady (delete db k).0
  unfolding delete
  delete-IsReady db k (m, e) = elim (Bool-cases (exists db k)) [
    | inl there ↦ rw there (rw e (_, refl))
    | inr gone ↦ rw gone (m, e)
  ]

  pub any-keys_of :
      (db : Db V) (k : String) → any (λ j. same_text j k) (keys_of db) ≡ is_some (get db k)
  unfolding keys_of
  any-keys_of db k = rw (any-sort_strings, get-eq-lookup) (any-keys k (entries db))

module _ {B V : Type 0} (g : Codec B V) (h : Files.Host B) where
  -- 0600 is within 0700, so the open returns.
  open_returns :
      (file : String) (d : Disk B)
      → (why : Option String) × (d' : Disk B) × (open_file_secure h rewrite 0o600 file d
          ≡ returns (why, d'))
  unfolding open_file_secure
  open_returns file d = (_, _, refl)

  written :
      (f : FileDb V) (d d' : Disk B) (o : Option String)
      → open_file_secure h rewrite 0o600 f.file d ≡ returns (o, d')
      → (why : Option String) × (e : Disk B) × (serialize_to_file g h f d ≡ returns (why, e))
  unfolding serialize_to_file
  written f d d' none e =
      let w = g.encode f.db.storage in
      (w.1, adjust f.file (λ n. record n { bytes = w.0 }) d', rw e refl)
  written f d d' (some why) e = (some why, d', rw e refl)

  -- `Serialize` returns, with an error or without.
  pub serialize_total :
      (f : FileDb V) (d : Disk B)
      → (why : Option String) × (d' : Disk B) × (serialize g h f d ≡ returns (why, d'))
  serialize_total f d =
      let (o, d', opened) = open_returns f.file d in
      let (why, e, done) = written f d d' o opened in
      elim (Bool-cases (same_text f.file "")) [
        | inl t ↦ (some "Cannot serialize to empty file", d, unfold serialize in rw t refl)
        | inr t ↦ (why, e, rw (← done) (unfold serialize in rw t refl))
      ]

  pub set_state : FileDb V × Disk B → String → V → Outcome (FileDb V × Disk B)
  set_state s k v = do db ← set s.0.db k v; returns (record s.0 { db = db }, s.1)

  unfoldable pub serialize_state : FileDb V × Disk B → Outcome (Option String × (FileDb V × Disk B))
  serialize_state s = do r ← serialize g h s.0 s.1; returns (r.0, (s.0, r.1))

  pub set_state_returns :
      (s : FileDb V × Disk B) (k : String) (v : V)
      → IsReady s.0.db
      → (s' : FileDb V × Disk B) × (set_state s k v ≡ returns s')
        × ((j : String) → get s'.0.db j ≡ (if same_text k j then some v else get s.0.db j))
        × IsReady s'.0.db
  unfolding set_state
  set_state_returns s k v r =
      let (db, e, at, ready) = set_lem s.0.db k v r in
      ((record s.0 { db = db }, s.1), rw e refl, at, ready)

  pub serialize_state_returns :
      (s : FileDb V × Disk B)
      → IsReady s.0.db
      → (why : Option String) × (s' : FileDb V × Disk B) × (serialize_state s ≡ returns (why, s'))
        × ((k : String) → get s'.0.db k ≡ get s.0.db k)
        × IsReady s'.0.db
  unfolding serialize_state
  serialize_state_returns s r =
      let (why, d, e) = serialize_total s.0 s.1 in (why, (s.0, d), rw e refl, λ k. refl, r)

  pub modify-IsReady : (db : Db V) (k : String) (f : V → V) → IsReady db → IsReady (modify db k f)
  modify-IsReady db k f (m, e) = (adjust k f m, rw e refl)

  unfoldable pub file_storer : Storer V
  unfolding set_state serialize_state
  file_storer = record {
    State = FileDb V × Disk B;
    get = λ s k. get s.0.db k;
    set = set_state;
    delete = λ s k. ((record s.0 { db = (delete s.0.db k).0 }, s.1), (delete s.0.db k).1);
    keys_of = λ s. keys_of s.0.db;
    modify = λ s k f. (record s.0 { db = modify s.0.db k f }, s.1);
    serialize = serialize_state;
    Ready = λ s. IsReady s.0.db;
    set_returns = set_state_returns;
    get-delete = λ s j k. (delete_lem s.0.db k j).1;
    delete-Ready = λ s k r. delete-IsReady s.0.db k r;
    any-keys_of = λ s k. any-keys_of s.0.db k;
    get-modify = λ s j k f. get-modify s.0.db j k f;
    modify-Ready = λ s k f r. modify-IsReady s.0.db k f r;
    serialize_returns = serialize_state_returns;
  }
