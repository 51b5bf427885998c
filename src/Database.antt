-- ===== src/Database.antt =====
-- The key/value storage of database/database.go: `DB`, and `FileDB` over a file.
pub mod Keys
pub mod Storage
pub mod Persistence
pub mod Storer
pub mod FileStorer
pub mod Reopen
pub mod Opened
use Prim.Native.String.{◌++◌ as ◌+++◌}
use gonit.Base.{
  String, Bool, true, false, Option, none, some, List, [], ◌∷◌, map, Outcome, returns, panics,
  ◌>>=◌, if◌then◌else◌, same_text, is_some,
}
use gonit.Base.Sort.{sort_strings}
use gonit.Base.Table.{Table, lookup, insert, erase, adjust, keys}
use gonit.Files.{Node, Disk, Host, Flags, file_exists, open_file_secure}

-- `Storage` is nil in a `DB` that is not initialized.
pub record Db (V : Type 0) : Type 0 where
  pub storage : Option (Table V)

-- What gob's `Decode` says of the bytes of a file: the new `Storage`, `io.EOF`, or another error.
pub data Decoded (V : Type 0) : Type 0 where
  decoded : Option (Table V) → Decoded V
  eof : Decoded V
  malformed : String → Decoded V

-- encoding/gob: the bytes written and the error of `Encode`, and `Decode`.
pub record Codec (B V : Type 0) : Type 0 where
  pub encode : Option (Table V) → B × Option String
  pub decode : B → Decoded V

module _ {V : Type 0} where
  -- The pairs that a `range` or a read of a map meets; a nil map has none.
  abbrev pub entries : Db V → Table V
  entries db = elim db.storage [ none ↦ [] | some m ↦ m ]

  unfoldable pub keys_of : Db V → List String
  unfolding sort_strings
  keys_of db = sort_strings (keys (entries db))

  unfoldable pub set : Db V → String → V → Outcome (Db V)
  set db key value = elim db.storage [
    | none ↦ panics "assignment to entry in nil map"
    | some m ↦ returns (record { storage = some (insert key value m) })
  ]

  unfoldable pub exists : Db V → String → Bool
  exists db key = is_some (lookup key (entries db))

  unfoldable pub get : Db V → String → Option V
  unfolding exists
  get db key = if exists db key then lookup key (entries db) else none

  unfoldable pub delete : Db V → String → Db V × Bool
  unfolding exists
  delete db key =
      if exists db key
      then (
        record { storage = elim db.storage [ none ↦ none | some m ↦ some (erase key m) ] },
        true,
      )
      else (db, false)

  unfoldable pub initialize : Db V → Db V
  initialize db = elim (entries db) [ [] ↦ record { storage = some [] } | _ ∷ _ ↦ db ]

pub record FileDb (V : Type 0) : Type 0 where
  pub db : Db V
  pub file : String

-- O_RDONLY, and O_TRUNC|O_RDWR|O_CREAT.
abbrev pub read_only : Flags
read_only = record { creates = false; truncates = false; writes = false }

abbrev pub rewrite : Flags
rewrite = record { creates = true; truncates = true; writes = true }

module _ {B V : Type 0} (g : Codec B V) where
  read_decoded : Db V → Decoded V → Db V × Option String
  read_decoded db (decoded storage) = (record { storage = storage }, none)
  read_decoded db eof = (db, none)
  read_decoded db (malformed why) =
      (db, some ("Error reading possible malformed database file: " +++ why))

  pub deserialize_from_reader : Db V → B → Db V × Option String
  unfolding read_decoded
  deserialize_from_reader db bytes = read_decoded db (g.decode bytes)

  pub serialize_to_writer : Db V → B × Option String
  serialize_to_writer db = g.encode db.storage

  -- `Decode` on the open file. A directory opens for reading, and its first read fails.
  read_node : Db V → Option (Node B) → Db V × Option String
  read_node db none = (db, some "file does not exist")
  read_node db (some n) =
      if n.regular
      then deserialize_from_reader db n.bytes
      else read_decoded db (malformed "is a directory")

  module _ (h : Host B) where
    deserialize_from_file : FileDb V → Disk B → Outcome (FileDb V × Option String)
    unfolding read_node read_decoded deserialize_from_reader
    deserialize_from_file f d = do
      opened ← open_file_secure h read_only 0o600 f.file d
      elim opened.0 [
        | some why ↦ returns (f, some why)
        | none ↦
            let r = read_node f.db (lookup f.file opened.1) in returns (record f { db = r.0 }, r.1)
      ]

    unfoldable pub deserialize : FileDb V → Disk B → Outcome (FileDb V × Option String)
    unfolding deserialize_from_file
    deserialize f d = do
      r ← deserialize_from_file f d
      returns (record r.0 { db = initialize r.0.db }, r.1)

    -- `Encode` into the file that was opened, and so cut to nothing.
    serialize_to_file : FileDb V → Disk B → Outcome (Option String × Disk B)
    unfolding serialize_to_writer
    serialize_to_file f d = do
      opened ← open_file_secure h rewrite 0o600 f.file d
      elim opened.0 [
        | some why ↦ returns (some why, opened.1)
        | none ↦
            let w = serialize_to_writer f.db in
            returns (w.1, adjust f.file (λ n. record n { bytes = w.0 }) opened.1)
      ]

    unfoldable pub serialize : FileDb V → Disk B → Outcome (Option String × Disk B)
    unfolding serialize_to_file
    serialize f d =
        if same_text f.file ""
        then returns (some "Cannot serialize to empty file", d)
        else serialize_to_file f d

    unfoldable pub new_file_database : String → Disk B → Outcome (FileDb V × Option String)
    unfolding deserialize initialize
    new_file_database file d =
        let f : FileDb V = record { db = record { storage = none }; file = file } in
        if file_exists d file
        then deserialize f d
        else returns (record f { db = initialize f.db }, none)
