-- ===== src/Runtime.antt =====
-- How Go code runs here: an action reads and changes a world of its caller's, and returns or
-- panics. `Go` keeps, beside the world, a trace of the calls that the code makes of others.
use postgres_sqlguard.Common.{List, [], ◌∷◌, ◌++◌}

pub data Outcome (A : Type 0) : Type 0 where
  returned : A → Outcome A
  panicked : Outcome A

-- Code outside the module at hand, over its world.
abbrev pub Action : Type 0 → Type 0 → Type 0
Action W A = W → Outcome A × W

pub record State (W C : Type 0) : Type 0 where
  pub world : W
  pub trace : List C

abbrev pub Go : Type 0 → Type 0 → Type 0 → Type 0
Go W C A = State W C → Outcome A × State W C

abbrev pub pure : {W C A : Type 0} → A → Go W C A
pure a s = (returned a, s)

abbrev pub continue :
    {W C A B : Type 0} → Outcome A × State W C → (A → Go W C B) → Outcome B × State W C
continue (returned a, s) f = f a s
continue (panicked, s) f = (panicked, s)

infixl 5 ◌>>=◌ ◌>>◌
abbrev pub ◌>>=◌ : {W C A B : Type 0} → Go W C A → (A → Go W C B) → Go W C B
◌>>=◌ m f s = continue (m s) f

abbrev pub ◌>>◌ : {W C A B : Type 0} → Go W C A → Go W C B → Go W C B
m >> n = m >>= λ _. n

-- A call of code outside, noted in the trace when it is made.
unfoldable pub perform : {W C A : Type 0} → C → Action W A → Go W C A
perform call action s =
    let (outcome, world) = action s.world in
    (outcome, record { world = world; trace = s.trace ++ call ∷ [] })

-- A deferred `recover`: a panic is dropped, and so is the result.
unfoldable pub recovering : {W C A : Type 0} → Go W C A → Go W C (Unit {0})
recovering m s = let (outcome, s') = m s in (returned tt, s')
