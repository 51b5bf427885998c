-- ===== src/Tests/Setup.antt =====
-- A codec, a host, a database and a monitor with two checks.
use gonit.Base.{refl, true, false, Option, none, some, [], ◌∷◌, arith, eq_iff}
use gonit.Base.Table.{Table, lookup, map_values, lookup-map_values}
use gonit.Check.{Check, new_process}
use gonit.Check as Check
use gonit.Database.FileStorer.{file_storer}
use gonit.Database.Persistence.{IsFaithful, CanWrite}
use gonit.Database.Storer.{Storer}
use gonit.Database.{Codec, Decoded, decoded, eof, FileDb, get}
use gonit.Entries.{Value, entry, moment}
use gonit.Files.{Host, Disk}
use gonit.Monitor.Invariant.{IsWellFormed}
use gonit.Monitor.{Monitor}
use gonit.Registry.{find_check}

-- The bytes of a file: none, or an encoded storage.
abbrev pub Bytes : Type 0
Bytes = Option (Option (Table Value))

-- The unexported fields of an entry are not sent.
abbrev pub wire : Value → Value
wire (entry e) = entry (record e { locked = false; readers = 0 })
wire (moment t) = moment t

abbrev pub send : Option (Table Value) → Option (Table Value)
send none = none
send (some m) = some (map_values wire m)

abbrev pub decode_bytes : Bytes → Decoded Value
decode_bytes none = eof
decode_bytes (some s) = decoded s

abbrev pub codec : Codec Bytes Value
codec = record { encode = λ s. (some (send s), none); decode = decode_bytes }

pub codec-IsFaithful : IsFaithful codec wire
codec-IsFaithful = record {
  round_trip = λ m e. (map_values wire m, refl, λ k. lookup-map_values k wire m);
}

abbrev pub host : Host Bytes
host = record { euid = 0; deny = λ file. none; parent = λ file. "/var"; empty = none }

abbrev pub storer : Storer Value
storer = file_storer codec host

abbrev pub no_files : Disk Bytes
no_files = []

abbrev pub empty_db : FileDb Value
empty_db = record { db = record { storage = some [] }; file = "/var/state" }

pub can_write : CanWrite host no_files "/var/state"
unfolding lookup
can_write = record {
  named = λ e. ground (arith, eq_iff "/var/state" "");
  allowed = refl;
  plain = λ n e. ground arith;
  below = λ e. ground (arith, eq_iff "/var" "/var/state");
}

abbrev pub web : Check
web = record {
  id = "web";
  address = 1;
  timeout = 120;
  monitored = some true;
  process = some new_process;
}

abbrev pub disk_check : Check
disk_check = record {
  id = "disk";
  address = 2;
  timeout = 120;
  monitored = some false;
  process = none;
}

unfoldable pub two_checks : Monitor storer
unfolding file_storer
two_checks = record {
  checks = web ∷ disk_check ∷ [];
  database = (empty_db, no_files);
  control_file = "/etc/gonitrc";
  socket_file = "";
  last_check = none;
}

pub two_checks-IsWellFormed : IsWellFormed storer two_checks
unfolding two_checks find_check lookup get
two_checks-IsWellFormed = record {
  distinct = (refl, (refl, tt));
  set_up = ((true, refl), ((false, refl), tt));
  ready = ([], refl);
  idle = λ k. refl;
}

abbrev pub clock : Check.Host
clock = record { now = 100; running = λ pid_file. true }
