-- ===== src/Database/Keys.antt =====
-- `Keys` of database/database.go.
use mathlib.Core.List.{Perm}
use mathlib.Core.List.Perm
use gonit.Base.{◌≡◌, some}
use gonit.Base.Sort.{
  IsAscending, sort_strings-IsAscending, sort_strings-perm, sort_strings-eq_of_perm,
}
use gonit.Base.Table.{Table, keys}
use gonit.Database.{Db, entries, keys_of}

module _ {V : Type 0} where
  -- The keys come in ascending order, and they are the keys of the map, each as often.
  pub keys_of_lem : (db : Db V) → IsAscending (keys_of db) × Perm (keys_of db) (keys (entries db))
  unfolding keys_of
  keys_of_lem db =
      (sort_strings-IsAscending (keys (entries db)), sort_strings-perm (keys (entries db)))

  -- Two maps with the same pairs, walked in any two orders, give the same list of keys.
  pub keys_of-eq_of_perm :
      (m n : Table V)
      → Perm m n
      → keys_of (record { storage = some m }) ≡ keys_of (record { storage = some n })
  unfolding keys_of
  keys_of-eq_of_perm m n p = sort_strings-eq_of_perm (Perm.map _ p)
