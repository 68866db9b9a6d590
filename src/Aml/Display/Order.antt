-- ===== src/Aml/Display/Order.antt =====
-- The display thread gives the pictures back in order, and holds no more than the newest one.
use amldigital_fpv.Prelude.{
  ℕ, zero, suc, ◌+◌, ◌≤◌, ◌≡◌, refl, true, false, List, [], ◌∷◌, ◌++◌, arith, length, Bool-cases,
  inl, inr,
}
use amldigital_fpv.Aml.Display.{
  got, not_yet, broken, wait_us, queue, Calls, Driver, dequeue, Drain, shown, returned, unfinished,
  Thread, terminated, running, give_back, drain_stale, aml_display_thread, taken, offered, given,
  Dequeued-cases,
}

-- Nothing was refused so far, and all but these were given back.
pub record Holds (held : List ℕ) (h : Calls) : Type 0 where
  pub back : taken h ≡ held ++ given h
  pub accepted : offered h ≡ given h

-- All were offered back, each once and in order, and the driver refused two at most.
pub record HasReturned (h : Calls) : Type 0 where
  pub order : offered h ≡ taken h
  pub refused : length (taken h) ≤ length (given h) + 2

-- The inner loop holds just the newest picture; a thread that is under way holds one at most.
abbrev HoldsNewest : Drain → Type 0
HoldsNewest (shown latest drained h) = Holds (latest ∷ []) h
HoldsNewest (returned h) = HasReturned h
HoldsNewest (unfinished latest h) = Holds (latest ∷ []) h

abbrev pub HoldsNone : Thread → Type 0
HoldsNone (terminated h) = HasReturned h
HoldsNone (running h) = (held : List ℕ) × Holds held h × (length held ≤ 1)

module _ (driver : Driver) where
  Holds-HasReturned : (h : Calls) → Holds [] h → HasReturned h
  Holds-HasReturned h n = ground (arith, n)

  -- The last picture is offered back, whatever the driver says.
  last-HasReturned : (i : ℕ) (h : Calls) → Holds (i ∷ []) h → HasReturned (give_back driver i h)
  unfolding give_back taken offered given
  last-HasReturned i h n = elim (Bool-cases (driver.qbuf h i)) [
    | inl ok ↦ rw ok (ground (arith, n))
    | inr refused ↦ rw refused (ground (arith, n))
  ]

  -- What the last picture's return leaves to the one behind it.
  taken_back-Holds :
      (i : ℕ) (h : Calls)
      → Holds (i ∷ []) h
      → driver.qbuf h i ≡ true
      → Holds [] (give_back driver i h)
  unfolding give_back taken offered given
  taken_back-Holds i h n ok = rw ok (ground (arith, n))

  newer-Holds :
      (i c : ℕ) (h : Calls)
      → Holds (i ∷ []) h
      → driver.qbuf (dequeue (got c) ∷ h) i ≡ true
      → Holds (c ∷ []) (give_back driver i (dequeue (got c) ∷ h))
  unfolding give_back taken offered given
  newer-Holds i c h n ok = rw ok (ground (arith, n))

  both-HasReturned :
      (i c : ℕ) (h : Calls)
      → Holds (i ∷ []) h
      → driver.qbuf (dequeue (got c) ∷ h) i ≡ false
      → HasReturned (give_back driver c (give_back driver i (dequeue (got c) ∷ h)))
  unfolding give_back taken offered given
  both-HasReturned i c h n refused =
      let h' = queue i false ∷ dequeue (got c) ∷ h in
      rw refused (elim (Bool-cases (driver.qbuf h' c)) [
        | inl ok ↦ rw ok (ground (arith, n))
        | inr again ↦ rw again (ground (arith, n))
      ])

  dequeued-Holds :
      (held : List ℕ) (h : Calls)
      → Holds held h
      → Holds held (dequeue not_yet ∷ h) × Holds held (dequeue broken ∷ h)
  unfolding taken offered given
  dequeued-Holds held h n = ground (arith, n)

  drain_stale-HoldsNewest :
      (fuel latest drained : ℕ) (h : Calls)
      → Holds (latest ∷ []) h
      → HoldsNewest (drain_stale driver fuel latest drained h)
  unfolding drain_stale
  drain_stale-HoldsNewest zero latest drained h n = n
  drain_stale-HoldsNewest (suc fuel) latest drained h n = elim (Bool-cases (driver.is_done h)) [
    | inl d ↦ rw (drain_stale, d) n
    | inr d ↦ elim (Dequeued-cases (driver.dqbuf h)) [
      | inl q ↦ rw (drain_stale, d, q) (dequeued-Holds (latest ∷ []) h n).0
      | inr (inl q) ↦
          rw (drain_stale, d, q) (last-HasReturned latest _ (dequeued-Holds (latest ∷ []) h n).1)
      | inr (inr (c, q)) ↦ elim (Bool-cases (driver.qbuf (dequeue (got c) ∷ h) latest)) [
        | inl ok ↦
            rw (drain_stale, d, q, ok)
              (drain_stale-HoldsNewest fuel c (suc drained) _ (newer-Holds latest c h n ok))
        | inr refused ↦ rw (drain_stale, d, q, refused) (both-HasReturned latest c h n refused)
      ]
    ]
  ]

  waited-Holds : (h : Calls) → Holds [] h → Holds [] (wait_us 500 ∷ dequeue not_yet ∷ h)
  unfolding taken offered given
  waited-Holds h n = ground (arith, n)

  first-Holds : (i : ℕ) (h : Calls) → Holds [] h → Holds (i ∷ []) (dequeue (got i) ∷ h)
  unfolding taken offered given
  first-Holds i h n = ground (arith, n)

  -- From a start where all pictures are given back and none was refused: however long the thread has
  -- run, and whatever the driver answers, all pictures but the newest one at most are given back in
  -- the order in which they were taken, while the thread runs, and the driver has refused none. When
  -- it returns, every picture was offered back, each once and in that order, and the driver has
  -- refused two at most.
  pub aml_display_thread-HoldsNone :
      (fuel : ℕ) (h : Calls) → Holds [] h → HoldsNone (aml_display_thread driver fuel h)
  unfolding aml_display_thread
  aml_display_thread-HoldsNone zero h n = ([], n, omega arith)
  aml_display_thread-HoldsNone (suc fuel) h n = elim (Bool-cases (driver.is_done h)) [
    | inl d ↦ rw (aml_display_thread, d) (Holds-HasReturned h n)
    | inr d ↦ elim (Dequeued-cases (driver.dqbuf h)) [
      | inl q ↦
          rw (aml_display_thread, d, q) (aml_display_thread-HoldsNone fuel _ (waited-Holds h n))
      | inr (inl q) ↦ rw (aml_display_thread, d, q) (Holds-HasReturned _ (dequeued-Holds [] h n).1)
      | inr (inr (i, q)) ↦
          on_drain i d q (drain_stale driver fuel i 0 (dequeue (got i) ∷ h)) refl
            (drain_stale-HoldsNewest fuel i 0 _ (first-Holds i h n))
            (aml_display_thread-HoldsNone fuel)
    ]
  ]
    where
      on_drain :
          (i : ℕ)
          → driver.is_done h ≡ false
          → driver.dqbuf h ≡ got i
          → (r : Drain) → drain_stale driver fuel i 0 (dequeue (got i) ∷ h) ≡ r
          → HoldsNewest r
          → ((h' : Calls) → Holds [] h' → HoldsNone (aml_display_thread driver fuel h'))
          → HoldsNone (aml_display_thread driver (suc fuel) h)
      on_drain i d q (shown latest n h') r n' rest = elim (Bool-cases (driver.qbuf h' latest)) [
        | inl ok ↦ rw (aml_display_thread, d, q, r, ok) (rest _ (taken_back-Holds latest h' n' ok))
        | inr refused ↦ rw (aml_display_thread, d, q, r, refused) (last-HasReturned latest h' n')
      ]
      on_drain i d q (returned h') r n' rest = rw (aml_display_thread, d, q, r) n'
      on_drain i d q (unfinished latest h') r n' rest =
          rw (aml_display_thread, d, q, r) (latest ∷ [], n', omega arith)
