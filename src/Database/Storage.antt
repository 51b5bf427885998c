-- ===== src/Database/Storage.antt =====
-- `Set`, `Get`, `Exists` and `Delete` of database/database.go as operations on a finite map.
use gonit.Base.{
  String, ◌≡◌, refl, Option, none, some, arith, returns, if◌then◌else◌, same_text, eq_iff, [], ◌∷◌,
  inl, inr, Option-cases,
}
use gonit.Base.Table.{Table, lookup, insert, lookup-erase, lookup-insert}
use gonit.Database.{Db, entries, set, get, exists, delete, initialize}

module _ {V : Type 0} where
  pub get-eq-lookup : (db : Db V) (k : String) → get db k ≡ lookup k (entries db)
  unfolding get exists
  get-eq-lookup db k = ground arith

  -- A `DB` whose map is not nil.
  abbrev pub IsReady : Db V → Type 0
  IsReady db = (m : Table V) × (db.storage ≡ some m)

  -- On a map that is not nil `Set` returns, the new value is read back, every other key reads as
  -- before, and the map is still not nil.
  pub set_lem :
      (db : Db V) (k : String) (v : V)
      → IsReady db
      → (db' : Db V) × (set db k v ≡ returns db')
        × ((j : String) → get db' j ≡ (if same_text k j then some v else get db j))
        × IsReady db'
  unfolding set
  set_lem db k v (m, e) = (
    record { storage = some (insert k v m) },
    rw e,
    λ j. rw (get-eq-lookup, get-eq-lookup) (ground (arith, lookup-insert j k v m)),
    (insert k v m, refl),
  )

  -- `Delete` says whether the key was there; after it the key is gone, and every other key reads as
  -- before.
  pub delete_lem :
      (db : Db V) (k j : String)
      → ((delete db k).1 ≡ exists db k)
        × (get (delete db k).0 j ≡ (if same_text k j then none else get db j))
  unfolding delete exists get lookup
  delete_lem db k j = elim (Option-cases db.storage) [
    | inl e ↦ (ground arith, ground arith)
    | inr (m, e) ↦ (ground arith, ground (arith, lookup-erase j k m, eq_iff k j))
  ]

  pub initialize-IsReady : (db : Db V) → IsReady (initialize db)
  unfolding initialize
  initialize-IsReady db = from db db.storage refl
    where
      from : (db : Db V) (o : Option (Table V)) → db.storage ≡ o → IsReady (initialize db)
      from db none e = ([], ground arith)
      from db (some []) e = ([], ground arith)
      from db (some (p ∷ m)) e = (p ∷ m, ground arith)

  -- Making the map ready changes nothing that a read shows.
  pub get-initialize : (db : Db V) (k : String) → get (initialize db) k ≡ get db k
  unfolding initialize get exists lookup
  get-initialize db k = elim (Option-cases db.storage) [
    | inl e ↦ ground arith
    | inr (m, e) ↦ ground arith
  ]
