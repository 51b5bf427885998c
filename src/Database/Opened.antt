-- ===== src/Database/Opened.antt =====
-- What `NewFileDatabase` of database/database.go hands on from the file that it reads.
use gonit.Base.{String, ◌≡◌, refl, Option, none, some, returns, inl, inr, Bool-cases}
use gonit.Base.Table.{Table, lookup}
use gonit.Database.{
  Db, Codec, Decoded, decoded, eof, malformed, FileDb, initialize, read_only, read_decoded,
  read_node, deserialize_from_reader, deserialize_from_file, deserialize, new_file_database,
}
use gonit.Database.Persistence.{open_returns}
use gonit.Files.{Disk, Node, Host, file_exists, open_file_secure}

-- A property of a map that every map has that the codec decodes, and the nil map.
module _ {B V : Type 0} (g : Codec B V) (h : Host B) (P : Db V → Type 0)
    (nil : P (record { storage = none }))
    (decodes : (bytes : B) (s : Option (Table V))
      → g.decode bytes ≡ decoded s
      → P (record { storage = s }))
    (starts : (db : Db V) → P db → P (initialize db)) where
  read_decoded_keeps :
      (db : Db V) (bytes : B) (r : Decoded V)
      → g.decode bytes ≡ r
      → P db
      → P (read_decoded g db r).0
  unfolding read_decoded
  read_decoded_keeps db bytes (decoded s) e p = decodes bytes s e
  read_decoded_keeps db bytes eof e p = p
  read_decoded_keeps db bytes (malformed why) e p = p

  read_node_keeps : (db : Db V) (o : Option (Node B)) → P db → P (read_node g db o).0
  unfolding read_node deserialize_from_reader read_decoded
  read_node_keeps db none p = p
  read_node_keeps db (some n) p = elim (Bool-cases n.regular) [
    | inl e ↦ rw e (read_decoded_keeps db n.bytes (g.decode n.bytes) refl p)
    | inr e ↦ rw e p
  ]

  deserialize_from_file_keeps :
      (f : FileDb V) (d : Disk B)
      → P f.db
      → (f' : FileDb V) × (why : Option String) × (deserialize_from_file g h f d
          ≡ returns (f', why))
        × P f'.db
  unfolding deserialize_from_file
  deserialize_from_file_keeps f d p =
      let (why, d', opened) = open_returns g h f.file d in from why d' opened
    where
      from :
          (o : Option String) (d' : Disk B)
          → open_file_secure h read_only 0o600 f.file d ≡ returns (o, d')
          → (f' : FileDb V) × (why : Option String) × (deserialize_from_file g h f d
              ≡ returns (f', why))
            × P f'.db
      from none d' e = (
        record f { db = (read_node g f.db (lookup f.file d')).0 },
        (read_node g f.db (lookup f.file d')).1,
        rw e refl,
        read_node_keeps f.db (lookup f.file d') p,
      )
      from (some why) d' e = (f, some why, rw e refl, p)

  -- The map of the database that `NewFileDatabase` returns then has the property.
  pub new_file_database_keeps :
      (file : String) (d : Disk B)
      → (f : FileDb V) × (why : Option String) × (new_file_database g h file d ≡ returns (f, why))
        × P f.db
  unfolding new_file_database deserialize
  new_file_database_keeps file d =
      let fresh : FileDb V = record { db = record { storage = none }; file = file } in
      let (f', why, r, p) = deserialize_from_file_keeps fresh d nil in
      elim (Bool-cases (file_exists d file)) [
        | inl e ↦ (
          record f' { db = initialize f'.db },
          why,
          rw (e, new_file_database) (rw (r, deserialize)),
          starts f'.db p,
        )
        | inr e ↦ (
          record fresh { db = initialize fresh.db },
          none,
          rw (e, new_file_database),
          starts fresh.db nil,
        )
      ]
