-- ===== src/Tests/Databases.antt =====
-- The theorems on the database at concrete inputs.

use mathlib.Core.Option
use gonit.Base.{String, ◌≡◌, refl, true, none, some, [], ◌∷◌, returns}
use gonit.Base.Text.{text_leb}
use gonit.Base.Table.{Table, lookup, insert}
use gonit.Database.Persistence.{new_file_database-serialize}
use gonit.Database.{
  Codec, Db, FileDb, get, keys_of, serialize, deserialize, new_file_database, malformed, initialize,
}
use gonit.Entries.{Value, moment}
use gonit.Files.{Disk, open_file_secure, file_exists, make_parent}
use gonit.Tests.Setup.{Bytes, codec, codec-IsFaithful, wire, host, no_files, empty_db, can_write}

abbrev two : Table Value
two = ("web", moment 1) ∷ ("disk", moment 2) ∷ []

abbrev two_db : Db Value
two_db = record { storage = some two }

keys_of_two : keys_of two_db ≡ "disk" ∷ "web" ∷ []
unfolding keys_of text_leb
keys_of_two = refl

new_file_database-serialize_example :
    (d : _) × (f : FileDb Value) × (serialize codec host (record empty_db { db = two_db }) no_files
      ≡ returns (none, d))
    × (new_file_database codec host "/var/state" d ≡ returns (f, none))
    × ((k : String) → get f.db k ≡ Option.map wire (get two_db k))
new_file_database-serialize_example =
    new_file_database-serialize codec host wire (record empty_db { db = two_db }) no_files two
      codec-IsFaithful refl can_write refl

-- A codec that refuses every file.
abbrev broken : Codec Bytes Value
broken = record codec { decode = λ b. malformed "bad" }

abbrev stale : FileDb Value
stale = record { db = two_db; file = "/var/state" }

abbrev garbled : Disk Bytes
garbled = ("/var/state", record { regular = true; mode = 0o600; uid = 0; bytes = none }) ∷ []

deserialize_fails :
    deserialize broken host stale garbled
    ≡ returns (stale, some "Error reading possible malformed database file: bad")
unfolding deserialize open_file_secure file_exists make_parent lookup initialize insert
deserialize_fails = refl
