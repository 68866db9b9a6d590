-- ===== src/Aml/Display.antt =====
-- `aml_display_thread` of src/aml.c: the thread that takes decoded pictures from the V4L2 queue,
-- shows the newest one and gives the stale ones back. Its log messages, and `count` and
-- `backlog_active`, which only they use, are left out.
pub mod Order
pub mod Ends
use amldigital_fpv.Prelude.{
  ℕ, zero, suc, ◌≤◌, ◌≡◌, refl, Bool, true, false, List, [], ◌∷◌, length, ◌⊎◌, inl, inr,
}

-- What VIDIOC_DQBUF answers: the index of a picture, EAGAIN, or another error.
pub data Dequeued : Type 0 where
  got : ℕ → Dequeued
  not_yet : Dequeued
  broken : Dequeued

-- The calls of the thread; the answer of VIDIOC_QBUF is whether it took the picture.
pub data DisplayCall : Type 0 where
  dequeue : Dequeued → DisplayCall
  queue : ℕ → Bool → DisplayCall
  wait_us : ℕ → DisplayCall

-- The last call in front.
abbrev pub Calls : Type 0
Calls = List DisplayCall

-- The driver, and `done`, which another thread sets: they answer by the calls so far.
pub record Driver : Type 0 where
  pub dqbuf : Calls → Dequeued
  pub qbuf : Calls → ℕ → Bool
  pub is_done : Calls → Bool

-- How the inner loop ends: with a picture to show and the number of stale ones, with the thread's
-- return, or without fuel.
pub data Drain : Type 0 where
  shown : ℕ → ℕ → Calls → Drain
  returned : Calls → Drain
  unfinished : ℕ → Calls → Drain

pub data Thread : Type 0 where
  terminated : Calls → Thread
  running : Calls → Thread

module _ (driver : Driver) where
  unfoldable pub give_back : ℕ → Calls → Calls
  give_back i h = queue i (driver.qbuf h i) ∷ h

  -- The inner loop: while there is a newer picture, the one in hand is given back.
  unfoldable pub drain_stale : ℕ → ℕ → ℕ → Calls → Drain
  unfolding give_back
  drain_stale zero latest drained h = unfinished latest h
  drain_stale (suc fuel) latest drained h = elim (driver.is_done h) [
    | true ↦ shown latest drained h
    | false ↦ elim (driver.dqbuf h) [
      | not_yet ↦ shown latest drained (dequeue not_yet ∷ h)
      | broken ↦ returned (give_back latest (dequeue broken ∷ h))
      | got candidate ↦ elim (driver.qbuf (dequeue (got candidate) ∷ h) latest) [
        | false ↦ returned (give_back candidate (give_back latest (dequeue (got candidate) ∷ h)))
        | true ↦
            drain_stale fuel candidate (suc drained)
              (give_back latest (dequeue (got candidate) ∷ h))
      ]
    ]
  ]

  -- The outer loop.
  unfoldable pub aml_display_thread : ℕ → Calls → Thread
  unfolding give_back
  aml_display_thread zero h = running h
  aml_display_thread (suc fuel) h = elim (driver.is_done h) [
    | true ↦ terminated h
    | false ↦ elim (driver.dqbuf h) [
      | not_yet ↦ aml_display_thread fuel (wait_us 500 ∷ dequeue not_yet ∷ h)
      | broken ↦ terminated (dequeue broken ∷ h)
      | got i ↦ elim (drain_stale fuel i 0 (dequeue (got i) ∷ h)) [
        | returned h' ↦ terminated h'
        | unfinished latest h' ↦ running h'
        | shown latest drained h' ↦ elim (driver.qbuf h' latest) [
          | false ↦ terminated (give_back latest h')
          | true ↦ aml_display_thread fuel (give_back latest h')
        ]
      ]
    ]
  ]

-- The pictures that were taken from the queue, those for which the thread asked the driver to take
-- them back, and those that the driver took back, the last in front.
unfoldable pub taken : Calls → List ℕ
taken [] = []
taken (dequeue (got i) ∷ h) = i ∷ taken h
taken (_ ∷ h) = taken h

unfoldable pub offered : Calls → List ℕ
offered [] = []
offered (queue i ok ∷ h) = i ∷ offered h
offered (_ ∷ h) = offered h

unfoldable pub given : Calls → List ℕ
given [] = []
given (queue i true ∷ h) = i ∷ given h
given (_ ∷ h) = given h

-- `done` is set before there are `limit` calls, and stays set.
abbrev pub StopsBy : ℕ → Driver → Type 0
StopsBy limit driver = (h : Calls) → limit ≤ length h → driver.is_done h ≡ true

pub Dequeued-cases : (d : Dequeued) → (d ≡ not_yet) ⊎ (d ≡ broken) ⊎ ((i : ℕ) × (d ≡ got i))
Dequeued-cases (got i) = inr (inr (i, refl))
Dequeued-cases not_yet = inl refl
Dequeued-cases broken = inr (inl refl)
