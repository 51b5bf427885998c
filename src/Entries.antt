-- ===== src/Entries.antt =====
-- monitor/database.go: the entry that the database keeps for a check, its lock, and `ChecksDatabase`.
-- `sync.RWMutex` is a flag for the writer and a count of readers; a call that has to wait for its
-- own goroutine deadlocks.
use gonit.Base.{
  ℕ, ◌+◌, ◌-◌, String, Bool, true, false, ◌||◌, Option, none, some, Outcome, returns, deadlocks,
  panics, if◌then◌else◌, ltb,
}
use gonit.Database.Storer.{Storer}

pub record Entry : Type 0 where
  pub id : String
  pub monitored : Bool
  pub data_collected_at : ℕ
  pub uptime : ℕ
  pub locked : Bool
  pub readers : ℕ

-- The values of the database: those of the types that the program registers with gob.
pub data Value : Type 0 where
  entry : Entry → Value
  moment : ℕ → Value

abbrev pub new_entry : String → Entry
new_entry id = record {
  id = id;
  monitored = true;
  data_collected_at = 0;
  uptime = 0;
  locked = false;
  readers = 0;
}

-- The type assertion `.(*ChecksDatabaseEntry)`.
abbrev pub as_entry : Option Value → Option Entry
as_entry (some (entry e)) = some e
as_entry _ = none

-- A write through the pointer to an entry.
abbrev pub on_entry : (Entry → Entry) → Value → Value
on_entry f (entry e) = entry (f e)
on_entry f (moment t) = moment t

abbrev pub is_busy : Entry → Bool
is_busy e = e.locked || ltb 0 e.readers

module _ (S : Storer Value) where
  open S use {State, get, set, modify}

  unfoldable pub get_entry : State → String → Option Entry
  get_entry s id = as_entry (get s id)

  unfoldable pub add_entry : State → String → Outcome State
  add_entry s id = set s id (entry (new_entry id))

  unfoldable pub lock : State → String → Outcome State
  unfolding get_entry
  lock s id = elim (get_entry s id) [
    | none ↦ panics "nil pointer"
    | some e ↦
        if is_busy e
        then deadlocks
        else returns (modify s id (on_entry (λ e. record e { locked = true })))
  ]

  unfoldable pub unlock : State → String → State
  unlock s id = modify s id (on_entry (λ e. record e { locked = false }))

  unfoldable pub read_lock : State → String → Outcome State
  unfolding get_entry
  read_lock s id = elim (get_entry s id) [
    | none ↦ panics "nil pointer"
    | some e ↦
        if e.locked
        then deadlocks
        else returns (modify s id (on_entry (λ e. record e { readers = e.readers + 1 })))
  ]

  unfoldable pub read_unlock : State → String → State
  read_unlock s id = modify s id (on_entry (λ e. record e { readers = e.readers - 1 }))
