-- ===== src/Prelude/Calls.antt =====
-- Counting the calls of a list, and what a state holds: for keeping count of what is taken and given
-- back.
use Prim.Native.Nat.{ℕ, suc}
use mathlib.Core.Bool.{Bool, true, false}
use mathlib.Core.List.{List, [], ◌∷◌}
use amldigital_fpv.Prelude.Tests.{if◌then◌else◌}

-- How many of the calls pass a test.
unfoldable pub tally {ℓ} : {A : Type ℓ} → (A → Bool) → List A → ℕ
tally test [] = 0
tally test (c ∷ cs) = if test c then suc (tally test cs) else tally test cs

-- 1 for what is held, 0 for what is not.
abbrev pub held : Bool → ℕ
held true = 1
held false = 0
