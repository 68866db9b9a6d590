-- ===== src/Aml/Display/Ends.antt =====
-- The display thread returns once `done` is set.
use amldigital_fpv.Prelude.{
  ℕ, zero, suc, ◌+◌, ◌≤◌, ◌<◌, ◌≡◌, refl, false, ◌∷◌, arith, length, leb, Bool-cases, inl, inr,
}
use amldigital_fpv.Aml.Display.{
  got, Calls, Driver, dequeue, Drain, shown, returned, unfinished, Thread, terminated, running,
  give_back, drain_stale, aml_display_thread, Dequeued-cases, StopsBy,
}

-- The inner loop ends, and has added to the calls.
abbrev Ends : ℕ → Drain → Type 0
Ends n (shown latest drained h) = n ≤ length h
Ends n (returned h) = Unit
Ends n (unfinished latest h) = ⊥

Ends-weaken : {m n : ℕ} (r : Drain) → m ≤ n → Ends n r → Ends m r
Ends-weaken (shown latest drained h) le e = omega arith
Ends-weaken (returned h) le e = tt
Ends-weaken (unfinished latest h) le e = e

abbrev pub Terminates : Thread → Type 0
Terminates (terminated h) = Unit
Terminates (running h) = ⊥

module _ (driver : Driver) (limit : ℕ) (stops : StopsBy limit driver) where
  not_done : (h : Calls) → driver.is_done h ≡ false → length h < limit
  not_done h d = elim (Bool-cases (leb limit (length h))) [
    | inl late ↦ cc (d, stops h (ground arith))
    | inr early ↦ ground arith
  ]

  drain_stale-Ends :
      (fuel latest drained : ℕ) (h : Calls)
      → 1 ≤ fuel
      → limit < fuel + length h
      → Ends (length h) (drain_stale driver fuel latest drained h)
  unfolding drain_stale give_back
  drain_stale-Ends zero latest drained h one enough = ground arith
  drain_stale-Ends (suc fuel) latest drained h one enough = elim (Bool-cases (driver.is_done h)) [
    | inl d ↦ rw (drain_stale, d) (omega arith)
    | inr d ↦
        let small = not_done h d in
        elim (Dequeued-cases (driver.dqbuf h)) [
          | inl q ↦ rw (drain_stale, d, q) (omega arith)
          | inr (inl q) ↦ rw (drain_stale, d, q) tt
          | inr (inr (c, q)) ↦ elim (Bool-cases (driver.qbuf (dequeue (got c) ∷ h) latest)) [
            | inl ok ↦
                rw (drain_stale, d, q, ok)
                  (Ends-weaken _ (omega arith)
                    (drain_stale-Ends fuel c (suc drained) _ (omega arith) (omega arith)))
            | inr refused ↦ rw (drain_stale, d, q, refused) tt
          ]
        ]
  ]

  -- Where `done` is set by `limit` calls and stays set, the thread returns, whatever the driver
  -- answers: fuel of at least 1 that is more than the calls up to `limit` is enough.
  pub aml_display_thread-Terminates :
      (fuel : ℕ) (h : Calls)
      → 1 ≤ fuel
      → limit < fuel + length h
      → Terminates (aml_display_thread driver fuel h)
  unfolding aml_display_thread give_back
  aml_display_thread-Terminates zero h one enough = ground arith
  aml_display_thread-Terminates (suc fuel) h one enough = elim (Bool-cases (driver.is_done h)) [
    | inl d ↦ rw (aml_display_thread, d) tt
    | inr d ↦
        let small = not_done h d in
        elim (Dequeued-cases (driver.dqbuf h)) [
          | inl q ↦
              rw (aml_display_thread, d, q)
                (aml_display_thread-Terminates fuel _ (omega arith) (omega arith))
          | inr (inl q) ↦ rw (aml_display_thread, d, q) tt
          | inr (inr (i, q)) ↦
              on_drain i d q (drain_stale driver fuel i 0 (dequeue (got i) ∷ h)) refl
                (drain_stale-Ends fuel i 0 _ (omega arith) (omega arith))
                (λ h' le. aml_display_thread-Terminates fuel h' (omega arith) (omega arith))
        ]
  ]
    where
      on_drain :
          (i : ℕ)
          → driver.is_done h ≡ false
          → driver.dqbuf h ≡ got i
          → (r : Drain) → drain_stale driver fuel i 0 (dequeue (got i) ∷ h) ≡ r
          → Ends (suc (length h)) r
          → ((h' : Calls)
              → suc (length h) ≤ length h'
              → Terminates (aml_display_thread driver fuel h'))
          → Terminates (aml_display_thread driver (suc fuel) h)
      on_drain i d q (shown latest n h') r e rest = elim (Bool-cases (driver.qbuf h' latest)) [
        | inl ok ↦ rw (aml_display_thread, d, q, r, ok) (rest _ (omega arith))
        | inr refused ↦ rw (aml_display_thread, d, q, r, refused) tt
      ]
      on_drain i d q (returned h') r e rest = rw (aml_display_thread, d, q, r) tt
      on_drain i d q (unfinished latest h') r e rest = rw (aml_display_thread, d, q, r) e
