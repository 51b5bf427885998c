-- ===== src/Tests/Threads.antt =====
-- The theorems on goroutines in `UpdateDatabase` at concrete inputs.
use gonit.Base.{
  ℕ, String, ◌≡◌, ◌⊎◌, refl, true, false, none, some, List, [], ◌∷◌, ◌++◌, arith, eq_iff, same_text,
}
use gonit.Base.Table.{lookup}
use gonit.Monitor.Threads.Agreed.{IsSaved, eventually_recorded}
use gonit.Monitor.Threads.Recorded.{HasFailed}
use gonit.Monitor.Threads.Settled.{HasFlag}
use gonit.Monitor.Threads.Orders.{swapped, crossing, IsStuck, opposite_orders_deadlock}
use gonit.Monitor.Threads.Progress.{AreFree, InOrder, start}
use gonit.Monitor.Threads.{Given, written, World, advance, is_finished, step, run, white_of}

abbrev world : World
world = record {
  db = ("a", 0) ∷ ("b", 1) ∷ ("z", 2) ∷ [];
  next = 3;
  owner = λ k e. none;
  monitored = λ k e. true;
  file = [];
}

world-AreFree : AreFree world
world-AreFree k e = refl

-- The flags of the checks: `a` is not monitored.
abbrev given : Given
given = record { on = λ k. same_text k "b"; saves = λ i. written }

abbrev order : List String
order = "a" ∷ "b" ∷ "c" ∷ []

-- A goroutine of a round, one of a request, and one whose monitor has one check more.
abbrev lists : List (List String)
lists = ("a" ∷ "b" ∷ []) ∷ ("a" ∷ "b" ∷ []) ∷ ("a" ∷ "c" ∷ []) ∷ []

lists-InOrder : InOrder order lists
lists-InOrder = (
  ((omega arith, tt), (tt, tt)),
  (((omega arith, tt), (tt, tt)), (((omega arith, tt), (tt, tt)), tt)),
)

-- The second waits for the first.
abbrev steps : List ℕ
steps = 0 ∷ 0 ∷ 0 ∷ 1 ∷ 1 ∷ 2 ∷ []

not_yet : is_finished ((run given (white_of lists) steps (start lists world)).pc 1) ≡ false
unfolding run step advance lookup
not_yet = refl

abbrev others : List (List String)
others = ("a" ∷ "b" ∷ []) ∷ ("a" ∷ "c" ∷ []) ∷ []

eventually_recorded_example :
    (js : List ℕ) × ((i : ℕ)
      → is_finished ((run given (white_of lists) (steps ++ js) (start lists world)).pc i) ≡ true)
    × AreFree (run given (white_of lists) (steps ++ js) (start lists world)).world
    × HasFlag given "a" (run given (white_of lists) (steps ++ js) (start lists world)).world
    × (lookup "z" (run given (white_of lists) (steps ++ js) (start lists world)).world.db ≡ none)
    × (IsSaved given "a" "z" (run given (white_of lists) (steps ++ js) (start lists world)).world
        ⊎ HasFailed "a" given (white_of lists))
eventually_recorded_example =
    eventually_recorded given order ("a" ∷ "b" ∷ []) others world steps "a" "z" lists-InOrder
      world-AreFree (refl, (refl, (refl, tt))) (refl, (refl, (refl, tt)))

at_a : lookup "a" world.db ≡ some 0
unfolding lookup
at_a = refl

at_b : lookup "b" world.db ≡ some 1
unfolding lookup
at_b = refl

opposite_orders_deadlock_example :
    IsStuck given
      (white_of (swapped "a" "b"))
      (run given (white_of (swapped "a" "b")) crossing (start (swapped "a" "b") world))
    × (is_finished
          ((run given (white_of (swapped "a" "b")) crossing (start (swapped "a" "b") world)).pc 0)
        ≡ false)
    × (is_finished
          ((run given (white_of (swapped "a" "b")) crossing (start (swapped "a" "b") world)).pc 1)
        ≡ false)
opposite_orders_deadlock_example =
    opposite_orders_deadlock given "a" "b" 0 1 world (λ e. ground (arith, eq_iff "a" "b", e)) at_a
      at_b world-AreFree
