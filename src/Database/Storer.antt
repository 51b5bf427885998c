-- ===== src/Database/Storer.antt =====
-- The interface `Storer` of database/database.go, as its clients see it, with the laws that they
-- rely on, and `FileDB` as an implementation. A state is the storage with the disk below it.
use mathlib.Core.Option
use gonit.Base.{
  String, ◌≡◌, Bool, Option, none, some, List, Outcome, returns, if◌then◌else◌, same_text, is_some,
  any,
}

pub record Storer (V : Type 0) : Type 1 where
  pub State : Type 0
  pub get : State → String → Option V
  pub set : State → String → V → Outcome State
  pub delete : State → String → State × Bool
  pub keys_of : State → List String
  -- A write through a pointer that the storage holds.
  pub modify : State → String → (V → V) → State
  pub serialize : State → Outcome (Option String × State)
  -- The storage is initialized.
  pub Ready : State → Type 0
  pub set_returns :
      (s : State) (k : String) (v : V)
      → Ready s
      → (s' : State) × (set s k v ≡ returns s')
        × ((j : String) → get s' j ≡ (if same_text k j then some v else get s j))
        × Ready s'
  pub get-delete :
      (s : State) (j k : String) → get (delete s k).0 j ≡ (if same_text k j then none else get s j)
  pub delete-Ready : (s : State) (k : String) → Ready s → Ready (delete s k).0
  pub any-keys_of :
      (s : State) (k : String) → any (λ j. same_text j k) (keys_of s) ≡ is_some (get s k)
  pub get-modify :
      (s : State) (j k : String) (f : V → V)
      → get (modify s k f) j ≡ (if same_text k j then Option.map f (get s j) else get s j)
  pub modify-Ready : (s : State) (k : String) (f : V → V) → Ready s → Ready (modify s k f)
  pub serialize_returns :
      (s : State)
      → Ready s
      → (why : Option String) × (s' : State) × (serialize s ≡ returns (why, s'))
        × ((k : String) → get s' k ≡ get s k)
        × Ready s'
