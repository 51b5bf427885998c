-- ===== src/Database/Persistence.antt =====
-- `Serialize`, `Deserialize` and `NewFileDatabase` of database/database.go.
use mathlib.Core.Option
use gonit.Base.{
  String, ◌≡◌, ◌⊎◌, ◌≢◌, refl, true, false, Option, none, some, arith, returns, eq_iff, inl, inr,
  Option-cases, Bool-cases,
}
use gonit.Base.Table.{Table, lookup, insert, adjust, lookup-insert, lookup-adjust}
use gonit.Files.{Node, Disk, Host, file_exists, open_file_secure, make_parent}
use gonit.Database.{
  Db, Decoded, decoded, eof, malformed, Codec, FileDb, get, initialize, rewrite, read_only,
  serialize, read_node, read_decoded, deserialize_from_reader, deserialize_from_file, deserialize,
  new_file_database,
}
use gonit.Database.Storage.{IsReady, initialize-IsReady, get-initialize, get-eq-lookup}

module _ {B V : Type 0} where
  -- What encoding/gob promises: a map that `Encode` has taken is read back with the same keys, and
  -- `wire` says what becomes of a value (its unexported fields are not sent).
  pub record IsFaithful (g : Codec B V) (wire : V → V) : Type 0 where
    pub round_trip :
        (m : Table V)
        → (g.encode (some m)).1 ≡ none
        → (m' : Table V) × (g.decode (g.encode (some m)).0 ≡ decoded (some m'))
          × ((k : String) → lookup k m' ≡ Option.map wire (lookup k m))

module _ {B : Type 0} where
  -- `os.Stat` calls the file regular, or there is nothing at its path.
  abbrev pub IsPlain : Disk B → String → Type 0
  IsPlain d file = (n : Node B) → lookup file d ≡ some n → n.regular ≡ true

  -- The system opens `file`, a plain path that is not its own directory.
  pub record CanWrite (h : Host B) (d : Disk B) (file : String) : Type 0 where
    pub named : file ≢ ""
    pub allowed : h.deny file ≡ none
    pub plain : IsPlain d file
    pub below : h.parent file ≢ file

module _ {B : Type 0} (h : Host B) (d : Disk B) (file : String) where
  lookup-make_parent :
      h.parent file ≢ file → lookup file (make_parent h rewrite file d) ≡ lookup file d
  unfolding make_parent
  lookup-make_parent ne = ground (
    arith,
    eq_iff (h.parent file) file,
    lookup-insert file (h.parent file)
        (record { regular = false; mode = 0o700; uid = h.euid; bytes = h.empty }) d,
  )

  open_rewrite :
      CanWrite h d file
      → (n : Node B) × (d' : Disk B) × (open_file_secure h rewrite 0o600 file d
          ≡ returns (none, d'))
        × (lookup file d' ≡ some n)
        × (n.regular ≡ true)
  unfolding open_file_secure
  open_rewrite w = elim (Option-cases (lookup file d)) [
    | inl e ↦ (
      created,
      insert file created made,
      ground (arith, w.allowed, lookup-make_parent w.below),
      ground (arith, lookup-insert file file created made, eq_iff file file),
      refl,
    )
    | inr (n, e) ↦ (
      record n { bytes = h.empty },
      adjust file (λ m. record m { bytes = h.empty }) made,
      ground (arith, w.allowed, lookup-make_parent w.below, w.plain n e),
      ground (
        arith,
        lookup-adjust file file (λ m. record m { bytes = h.empty }) made,
        eq_iff file file,
        lookup-make_parent w.below,
      ),
      w.plain n e,
    )
  ]
    where
      made : Disk B
      made = make_parent h rewrite file d

      created : Node B
      created = record { regular = true; mode = 0o600; uid = h.euid; bytes = h.empty }

module _ {B V : Type 0} (g : Codec B V) (h : Host B) where
  saved_node :
      (f : FileDb V) (d : Disk B)
      → CanWrite h d f.file
      → (g.encode f.db.storage).1 ≡ none
      → (n : Node B) × (d' : Disk B) × (serialize g h f d ≡ returns (none, d'))
        × (lookup f.file d' ≡ some n)
        × (n.regular ≡ true)
        × (n.bytes ≡ (g.encode f.db.storage).0)
  unfolding serialize
  saved_node f d w e =
      let (n, d', opened, at, plain) = open_rewrite h d f.file w in
      let bytes = (g.encode f.db.storage).0 in
      (
        record n { bytes = bytes },
        adjust f.file (λ n. record n { bytes = bytes }) d',
        rw (serialize, opened) (ground (arith, w.named, eq_iff f.file "")),
        ground (
          arith,
          lookup-adjust f.file f.file (λ n. record n { bytes = bytes }) d',
          eq_iff f.file f.file,
        ),
        plain,
        refl,
      )

  pub loaded :
      (file : String) (d : Disk B) (n : Node B) (m : Table V)
      → h.deny file ≡ none
      → lookup file d ≡ some n
      → n.regular ≡ true
      → g.decode n.bytes ≡ decoded (some m)
      → new_file_database g h file d
        ≡ returns (record { db = initialize (record { storage = some m }); file = file }, none)
  unfolding new_file_database open_file_secure file_exists make_parent
  loaded file d n m a l r e = ground arith

  -- With a codec that keeps its promise and a file that can be written, an initialized database is
  -- saved without an error, and a database made from the file then reads every key as the saved
  -- one did, up to the fields that are not sent.
  pub new_file_database-serialize :
      (wire : V → V) (f : FileDb V) (d : Disk B) (m : Table V)
      → IsFaithful g wire
      → f.db.storage ≡ some m
      → CanWrite h d f.file
      → (g.encode (some m)).1 ≡ none
      → (d' : Disk B) × (f' : FileDb V) × (serialize g h f d ≡ returns (none, d'))
        × (new_file_database g h f.file d' ≡ returns (f', none))
        × ((k : String) → get f'.db k ≡ Option.map wire (get f.db k))
  new_file_database-serialize wire f d m c s w e =
      let (n, d', saved, at, plain, holds) = saved_node f d w (rw s e) in
      let (m', read, same) = c.round_trip m e in
      (
        d',
        record { db = initialize (record { storage = some m' }); file = f.file },
        saved,
        loaded f.file d' n m' w.allowed at plain (rw (holds, s) read),
        λ k. rw (get-initialize, get-eq-lookup, get-eq-lookup, s) (same k),
      )

  read_node_cases :
      (db : Db V) (o : Option (Node B))
      → ((read_node g db o).1 ≡ none) ⊎ ((read_node g db o).0 ≡ db)
  unfolding read_node deserialize_from_reader read_decoded
  read_node_cases db none = inr refl
  read_node_cases db (some n) = elim (Bool-cases n.regular) [
    | inl e ↦ rw e (from (g.decode n.bytes))
    | inr e ↦ rw e (inr refl)
  ]
    where
      from : (r : Decoded V) → ((read_decoded g db r).1 ≡ none) ⊎ ((read_decoded g db r).0 ≡ db)
      from (decoded m) = inl refl
      from eof = inl refl
      from (malformed why) = inr refl

  pub open_returns :
      (file : String) (d : Disk B)
      → (why : Option String) × (d' : Disk B) × (open_file_secure h read_only 0o600 file d
          ≡ returns (why, d'))
  unfolding open_file_secure
  open_returns file d = (_, _, refl)

  deserialize_from_file_cases :
      (f : FileDb V) (d : Disk B)
      → (f' : FileDb V) × (why : Option String) × (deserialize_from_file g h f d
          ≡ returns (f', why))
        × ((why ≡ none) ⊎ (f'.db ≡ f.db))
  unfolding deserialize_from_file
  deserialize_from_file_cases f d = from (open_returns f.file d).0 refl
    where
      opened :
          open_file_secure h read_only 0o600 f.file d
          ≡ returns ((open_returns f.file d).0, (open_returns f.file d).1)
      opened = (open_returns f.file d).2

      node : Option (Node B)
      node = lookup f.file (open_returns f.file d).1

      from :
          (o : Option String)
          → (open_returns f.file d).0 ≡ o
          → (f' : FileDb V) × (why : Option String) × (deserialize_from_file g h f d
              ≡ returns (f', why))
            × ((why ≡ none) ⊎ (f'.db ≡ f.db))
      from none e = (
        record f { db = (read_node g f.db node).0 },
        (read_node g f.db node).1,
        rw (opened, e),
        read_node_cases f.db node,
      )
      from (some why) e = (f, some why, rw (opened, e), inr refl)

  -- `NewFileDatabase` returns whatever the file holds, with an error or without, and the map of
  -- the database that it returns is not nil.
  pub new_file_database_total :
      (file : String) (d : Disk B)
      → (f : FileDb V) × (why : Option String) × (new_file_database g h file d ≡ returns (f, why))
        × IsReady f.db
  unfolding new_file_database
  new_file_database_total file d =
      let fresh : FileDb V = record { db = record { storage = none }; file = file } in
      let (f', why, r, _) = deserialize_from_file_cases fresh d in
      elim (Bool-cases (file_exists d file)) [
        | inl e ↦ (
          record f' { db = initialize f'.db },
          why,
          rw (e, new_file_database) (rw (r, deserialize)),
          initialize-IsReady f'.db,
        )
        | inr e ↦ (
          record fresh { db = initialize fresh.db },
          none,
          rw (e, new_file_database),
          initialize-IsReady fresh.db,
        )
      ]

  -- A `Deserialize` that fails leaves every key as it was in memory.
  pub get-deserialize_failed :
      (f f' : FileDb V) (d : Disk B) {why : String}
      → deserialize g h f d ≡ returns (f', some why)
      → (k : String) → get f'.db k ≡ get f.db k
  unfolding deserialize
  get-deserialize_failed f f' d e k =
      let (f1, why1, r, kept) = deserialize_from_file_cases f d in
      ground (arith, r, kept, get-initialize f1.db k)
