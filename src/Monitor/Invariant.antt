-- ===== src/Monitor/Invariant.antt =====
-- What holds of a monitor between two calls, and what can be seen of its flags.
use mathlib.Core.Option
use gonit.Base.{String, ◌≡◌, Bool, true, Option, none, some}
use gonit.Database.Storer.{Storer}
use gonit.Entries.{Value, as_entry}
use gonit.Registry.{find_check, IsDistinct, IsSetUp, is_on}
use gonit.Monitor.Update.{is_idle}
use gonit.Monitor.{Monitor}

module _ (S : Storer Value) where
  -- No two checks have one id, every check is set up, the database is ready, and nobody holds the
  -- lock of an entry.
  pub record IsWellFormed (m : Monitor S) : Type 0 where
    pub distinct : IsDistinct m.checks
    pub set_up : IsSetUp m.checks
    pub ready : S.Ready m.database
    pub idle : (k : String) → is_idle (S.get m.database k) ≡ true

  -- The flag of the check with an id, in memory.
  abbrev pub flag_of : String → Monitor S → Option Bool
  flag_of k m = Option.map is_on (find_check k m.checks)

  -- The flag that the database has for an id.
  abbrev pub stored_flag : String → Monitor S → Option Bool
  stored_flag k m = Option.map (λ e. e.monitored) (as_entry (S.get m.database k))

-- A check with no stored flag is monitored.
abbrev pub or_on : Option Bool → Bool
or_on none = true
or_on (some b) = b
