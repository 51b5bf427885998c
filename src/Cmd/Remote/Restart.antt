-- ===== src/Cmd/Remote/Restart.antt =====
-- The commands `monitor` and `unmonitor` on a daemon, and the `New` of the next daemon on the same
-- state file.
use gonit.Base.{String, ◌≡◌, ◌⊎◌, Bool, none, some, if◌then◌else◌, same_text}
use gonit.Check.{Check, Host}
use gonit.Database.FileStorer.{file_storer}
use gonit.Database.{Codec}
use gonit.Entries.{Value}
use gonit.Files as Files
use gonit.Monitor.Invariant.{flag_of, or_on}
use gonit.Monitor.{Monitor}
use gonit.Server.Client.{Client}

module _ {B : Type 0} (g : Codec B Value) (fh : Files.Host B) where
  -- The flags that a restart leaves, where the check `id` had got the flag `b`.
  abbrev pub CarriesFlags :
      Bool → String → Monitor (file_storer g fh) → Monitor (file_storer g fh) → Type 0
  CarriesFlags b id m m'' =
      (k : String)
      → (flag_of (file_storer g fh) k m'' ≡ none)
        ⊎ (flag_of (file_storer g fh) k m''
            ≡ some (if same_text id k then b else or_on (flag_of (file_storer g fh) k m)))
