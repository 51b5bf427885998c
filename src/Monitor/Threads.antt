-- ===== src/Monitor/Threads.antt =====
-- `UpdateDatabase` of monitor/monitor.go in several goroutines at once: those of the rounds of
-- `LoopForever`, and those of the requests to monitor and unmonitor. A step is one access to the
-- database or to the mutex of an entry; the goroutines take their steps in any order.
-- The checks' flags are as they are. `Serialize` is one step, which may fail: the file is what can
-- be read from the state file.
pub mod Orderly
pub mod Owners
pub mod Progress
pub mod Orders
pub mod Steps
pub mod Finish
pub mod Recorded
pub mod Written
pub mod Pruned
pub mod Settled
pub mod Agreed
use gonit.Base.{
  ℕ, zero, suc, ◌+◌, String, Bool, true, false, ◌&&◌, Option, none, some, List, [], ◌∷◌, map,
  if◌then◌else◌, same_text, is_some, any, ◌==◌,
}
use gonit.Base.Sort.{sort_strings}
use gonit.Base.Table.{Table, lookup, insert, erase, keys}

-- An entry is an object: its key, and a number that no other object has.
abbrev pub Held : Type 0
Held = List (String × ℕ)

pub record World : Type 0 where
  pub db : Table ℕ  -- the number of the entry at a key
  pub next : ℕ
  pub owner : String → ℕ → Option ℕ  -- the goroutine that has locked the entry
  pub monitored : String → ℕ → Bool
  pub file : Table Bool

-- What `Serialize` comes to. It writes the file; or it fails before the file is opened, or when it
-- is, and leaves it as it was; or it fails in writing, and of the file, which is emptied when it is
-- opened, nothing can be read.
pub data Saving : Type 0 where
  written : Saving
  refused : Saving
  broken_off : Saving

abbrev pub file_after : Saving → World → Table Bool
file_after written w = map (λ p. (p.0, w.monitored p.0 p.1)) w.db
file_after refused w = w.file
file_after broken_off w = []

-- `Serialize` returns an error.
abbrev pub has_failed : Saving → Bool
has_failed written = false
has_failed _ = true

-- What the goroutines find: the flags of the checks, and what the `Serialize` of each comes to.
pub record Given : Type 0 where
  pub on : String → Bool
  pub saves : ℕ → Saving

-- Where a goroutine stands, with the checks that its loop has before it, and the entries whose
-- deferred `unlock` is to come, the first one to be called in front.
pub data Pc : Type 0 where
  checking : List String → Held → Pc  -- head of the loop
  adding : String → List String → Held → Pc  -- before `AddEntry`
  waiting : String → ℕ → List String → Held → Pc  -- before `lock`
  writing : String → ℕ → List String → Held → Pc  -- before `e.Monitored = …`
  listing : Held → Pc  -- before `Keys`
  pruning : List String → Held → Pc  -- head of the second loop
  saving : Held → Pc  -- before `Serialize`
  releasing : Held → Pc  -- the deferred calls
  finished : Pc

-- A function of an entry, changed at one.
abbrev pub put_entry : {A : Type 0} → String → ℕ → A → (String → ℕ → A) → String → ℕ → A
put_entry k a v f j b = if same_text j k && b == a then v else f j b

pub record System : Type 0 where
  pub world : World
  pub pc : ℕ → Pc

abbrev pub put_pc : ℕ → Pc → (ℕ → Pc) → ℕ → Pc
put_pc i p f j = if j == i then p else f j

-- The goroutine `i`, whose list of checks is `white`.
module _ (given : Given) where
  -- The next step, unless the goroutine has finished or has to wait.
  unfoldable pub advance : ℕ → List String → World → Pc → Option (World × Pc)
  advance i white w (checking [] h) = some (w, listing h)
  advance i white w (checking (id ∷ ids) h) =
      some (w, elim (lookup id w.db) [ none ↦ adding id ids h | some a ↦ waiting id a ids h ])
  advance i white w (adding id ids h) = some (
    record w {
      db = insert id w.next w.db;
      next = w.next + 1;
      monitored = put_entry id w.next true w.monitored;
    },
    waiting id w.next ids h,
  )
  advance i white w (waiting id a ids h) =
      if is_some (w.owner id a)
      then none
      else some (record w { owner = put_entry id a (some i) w.owner }, writing id a ids h)
  advance i white w (writing id a ids h) = some (
    record w { monitored = put_entry id a (given.on id) w.monitored },
    checking ids ((id, a) ∷ h),
  )
  advance i white w (listing h) = some (w, pruning (sort_strings (keys w.db)) h)
  advance i white w (pruning [] h) = some (w, saving h)
  advance i white w (pruning (k ∷ ks) h) =
      some (
        (if any (λ j. same_text j k) white then w else record w { db = erase k w.db }),
        pruning ks h,
      )
  advance i white w (saving h) =
      some (record w { file = file_after (given.saves i) w }, releasing h)
  advance i white w (releasing []) = some (w, finished)
  advance i white w (releasing ((k, a) ∷ h)) =
      some (record w { owner = put_entry k a none w.owner }, releasing h)
  advance i white w finished = none

  -- Goroutine `i` runs `UpdateDatabase` on the list of checks `white i`. One that is picked and cannot
  -- go on stays where it is.
  unfoldable pub step : (ℕ → List String) → ℕ → System → System
  unfolding advance
  step white i s = elim (advance i (white i) s.world (s.pc i)) [
    | none ↦ s
    | some (w, p) ↦ record { world = w; pc = put_pc i p s.pc }
  ]

  unfoldable pub run : (ℕ → List String) → List ℕ → System → System
  run white [] s = s
  run white (i ∷ is) s = run white is (step white i s)

-- The goroutines' lists of checks; one that is not there has nothing to do.
abbrev pub white_of : List (List String) → ℕ → List String
white_of [] i = []
white_of (ids ∷ rest) zero = ids
white_of (ids ∷ rest) (suc i) = white_of rest i

abbrev pub start_pc : List (List String) → ℕ → Pc
start_pc [] i = finished
start_pc (ids ∷ rest) zero = checking ids []
start_pc (ids ∷ rest) (suc i) = start_pc rest i

abbrev pub is_finished : Pc → Bool
is_finished finished = true
is_finished _ = false
