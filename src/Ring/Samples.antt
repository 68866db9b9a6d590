-- ===== src/Ring/Samples.antt =====
-- Runs of the ring buffer on small inputs, and the theorems at rings that meet their hypotheses.
use amldigital_fpv.Prelude.{ℕ, ◌≡◌, refl, [], ◌∷◌, some, arith, inl}
use amldigital_fpv.Ring.{Ring, push, pop, make_room, store}
use amldigital_fpv.Ring.Invariant.{IsValid}
use amldigital_fpv.Ring.Refine.{contents, enqueue, Pops, push_refines, pop_refines}

-- Three slots, full, with the head in the middle.
abbrev full : Ring ℕ
full = record { capacity = 3; buffer = 30 ∷ 10 ∷ 20 ∷ []; head = 1; size = 3 }

full-IsValid : IsValid full
full-IsValid = record {
  small = omega arith;
  storage = refl;
  size_in = omega arith;
  head_in = inl (omega arith);
}

overflow_sample : contents (push full 40) ≡ some 20 ∷ some 30 ∷ some 40 ∷ []
unfolding push make_room store
overflow_sample = refl

push_refines_example : contents (push full 40) ≡ enqueue 3 (contents full) (some 40)
push_refines_example = push_refines {r = full} 40 full-IsValid

pop_refines_example : Pops (contents full) (pop full)
pop_refines_example = pop_refines {r = full} full-IsValid
