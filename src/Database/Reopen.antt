-- ===== src/Database/Reopen.antt =====
-- `NewFileDatabase` of database/database.go on the file of a database that was saved before.
use mathlib.Core.Option
use gonit.Base.{
  String, ◌≡◌, refl, returns-injective, sym, ap, ◌∙◌, true, none, some, arith, Outcome, returns,
  ◌>>=◌, inl, inr, Option-cases, Bool-cases, eq_iff, same_text,
}
use gonit.Base.Table.{Table, lookup, lookup-adjust}
use gonit.Database.Persistence.{IsFaithful, loaded}
use gonit.Database.Storage.{IsReady, get-eq-lookup, get-initialize, initialize-IsReady}
use gonit.Database.FileStorer.{serialize_state, serialize_total}
use gonit.Database.{
  Codec, FileDb, get, initialize, rewrite, serialize, serialize_to_file, new_file_database,
}
use gonit.Files.Secure.{os_open_lem}
use gonit.Files.{Node, Disk, Host, os_open, make_parent, open_file_secure}

module _ {B V : Type 0} (g : Codec B V) (h : Host B) where
  -- A save without an error leaves the storage in a regular file, which the user may open.
  pub serialize_saved :
      (f : FileDb V) (d d' : Disk B)
      → serialize g h f d ≡ returns (none, d')
      → (h.deny f.file ≡ none)
        × ((g.encode f.db.storage).1 ≡ none)
        × ((n : Node B) × (lookup f.file d' ≡ some n)
            × (n.regular ≡ true)
            × (n.bytes ≡ (g.encode f.db.storage).0))
  unfolding serialize serialize_to_file open_file_secure
  serialize_saved f d d' e =
      let d0 = make_parent h rewrite f.file d in
      let opened = os_open h rewrite 0o600 f.file d0 in
      elim (Bool-cases (same_text f.file "")) [
        | inl unnamed ↦ absurd (ground (arith, rw (serialize, unnamed) at e))
        | inr named ↦ elim (Option-cases opened.0) [
          | inr (why, bad) ↦ absurd (ground (arith, named, bad, e))
          | inl good ↦
              let bytes = (g.encode f.db.storage).0 in
              let (fine, here) = os_open_lem h 0o600 f.file d0 opened.1 (ground (arith, good)) in
              let (n, found, plain) = here in
              (
                fine,
                ground (arith, named, good, e),
                (
                  record n { bytes = bytes },
                  ground (
                    arith,
                    named,
                    good,
                    e,
                    lookup-adjust f.file f.file (λ n. record n { bytes = bytes }) opened.1,
                    found,
                    eq_iff f.file f.file,
                  ),
                  plain,
                  refl,
                ),
              )
        ]
      ]

  -- The next process opens the file that this one has used.
  unfoldable pub reopen : FileDb V × Disk B → Outcome (FileDb V × Disk B)
  reopen s = do r ← new_file_database g h s.0.file s.1; returns (r.0, s.1)

  -- What is found in the file of a saved storage.
  abbrev pub Reopened : (V → V) → FileDb V → Disk B → Type 0
  Reopened wire f d =
      (s : FileDb V × Disk B) × (reopen (f, d) ≡ returns s)
      × ((k : String) → get s.0.db k ≡ Option.map wire (get f.db k))
      × IsReady s.0.db

  reopen_node :
      (wire : V → V) (f : FileDb V) (d : Disk B) (n : Node B) (m : Table V)
      → IsFaithful g wire
      → f.db.storage ≡ some m
      → h.deny f.file ≡ none
      → (g.encode (some m)).1 ≡ none
      → lookup f.file d ≡ some n
      → n.regular ≡ true
      → n.bytes ≡ (g.encode (some m)).0
      → Reopened wire f d
  unfolding reopen
  reopen_node wire f d n m c holds fine whole there plain bytes =
      let (m', read, same) = c.round_trip m whole in
      (
        (record { db = initialize (record { storage = some m' }); file = f.file }, d),
        rw (loaded g h f.file d n m' fine there plain (rw bytes read)) refl,
        λ k. rw (get-initialize, get-eq-lookup, get-eq-lookup, holds) (same k),
        initialize-IsReady (record { storage = some m' }),
      )

  reopen_saved :
      (wire : V → V) (f : FileDb V) (d d' : Disk B)
      → IsFaithful g wire
      → IsReady f.db
      → serialize g h f d ≡ returns (none, d')
      → Reopened wire f d'
  reopen_saved wire f d d' c (m, holds) saved =
      let (fine, whole, here) = serialize_saved f d d' saved in
      let (n, there, plain, bytes) = here in
      reopen_node wire f d' n m c holds fine (rw holds at whole) there plain (rw holds at bytes)

  -- With a codec that keeps its promise, a storage that was saved without an error is found again,
  -- up to the fields that are not sent.
  pub reopen-serialize_state :
      (wire : V → V) (s s' : FileDb V × Disk B)
      → IsFaithful g wire
      → IsReady s.0.db
      → serialize_state g h s ≡ returns (none, s')
      → (s'' : FileDb V × Disk B) × (reopen s' ≡ returns s'')
        × ((k : String) → get s''.0.db k ≡ Option.map wire (get s.0.db k))
        × IsReady s''.0.db
  unfolding serialize_state
  reopen-serialize_state wire s s' c r e =
      let (why, d, done) = serialize_total g h s.0 s.1 in
      let ran : serialize_state g h s ≡ returns (why, (s.0, d)) = rw done refl in
      let same_end = returns-injective (sym ran ∙ e) in
      let saved : serialize g h s.0 s.1 ≡ returns (none, d) =
        done ∙ ap (λ o. returns (o, d)) (ap (λ x. x.0) same_end) in
      let (s'', opened, read, r'') = reopen_saved wire s.0 s.1 d c r saved in
      (s'', ap reopen (sym (ap (λ x. x.1) same_end)) ∙ opened, read, r'')
