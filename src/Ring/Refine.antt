-- ===== src/Ring/Refine.antt =====
-- The ring buffer against a bounded queue that drops its oldest entry.
use mathlib.Core.Path.{ap₂}
use native.Mathlib.Nat.{mod-eq_of_lt, mod-eq-sub-mod, mod-add-mod}
use native.Mathlib.Decide.{dec_lt}
use amldigital_fpv.Prelude.{
  ℕ, zero, suc, ◌+◌, ◌-◌, ◌%◌, ◌<◌, ◌≤◌, ◌≡◌, ◌≢◌, refl, sym, ap, ◌∙◌, ◌⊎◌, inl, inr, List, [], ◌∷◌,
  ◌++◌, Option, some, arith, length, get_elem?, set, drop, get_elem?-set_self, get_elem?-set_ne,
  get_elem?-some, if◌then◌else◌, ◌==◌, Bool-cases, length-append,
}
use amldigital_fpv.Ring.{Ring, Pop, blocks, fault, popped, add_size, make_room, store, push, pop}
use amldigital_fpv.Ring.Invariant.{IsValid, make_room-IsValid}

-- One round at most: the remainder is the sum, or the sum less the capacity.
mod_round :
    (c h i : ℕ)
    → h < c
    → i < c
    → ((h + i < c) × ((h + i) % c ≡ h + i)) ⊎ ((c ≤ h + i) × ((h + i) % c ≡ h + i - c))
mod_round c h i hc ic = elim (dec_lt (h + i) c) [
  | yes p ↦ inl (p, mod-eq_of_lt p)
  | no p ↦ inr (
    omega arith,
    mod-eq-sub-mod {n = h + i} {m = c} (omega arith)
        ∙ mod-eq_of_lt {n = h + i - c} {m = c} (omega arith),
  )
]

-- Two places of a ring that are less than a round apart differ.
places-ne : (c h i j : ℕ) → h < c → i < j → j < c → (h + j) % c ≢ (h + i) % c
places-ne c h i j hc ij jc = omega (arith, mod_round c h j hc jc, mod_round c h i hc (omega arith))

module _ {A : Type 0} where
  -- The `n` slots from `head` on, oldest first, as `buffer_[(head_ + i) % capacity_]` reads them.
  abbrev pub slots : List A → ℕ → ℕ → ℕ → List (Option A)
  slots buffer capacity head zero = []
  slots buffer capacity head (suc n) =
      slots buffer capacity head n ++ (get_elem? buffer ((head + n) % capacity) ∷ [])

  -- The frames that a ring holds, oldest first.
  abbrev pub contents : Ring A → List (Option A)
  contents r = slots r.buffer r.capacity r.head r.size

  length-slots : (b : List A) (c h n : ℕ) → length (slots b c h n) ≡ n
  length-slots b c h zero = refl
  length-slots b c h (suc n) =
      omega (
        arith,
        length-append (slots b c h n) (get_elem? b ((h + n) % c) ∷ []),
        length-slots b c h n,
      )

  pub length-contents : (r : Ring A) → length (contents r) ≡ r.size
  length-contents r = length-slots r.buffer r.capacity r.head r.size

  slots-set :
      (b : List A) (c h n j : ℕ) (x : A)
      → h < c
      → n ≤ j
      → j < c
      → slots (set b ((h + j) % c) x) c h n ≡ slots b c h n
  slots-set b c h zero j x hc nj jc = refl
  slots-set b c h (suc n) j x hc nj jc =
      ap₂ (λ s o. s ++ (o ∷ [])) (slots-set b c h n j x hc (omega arith) jc)
        (get_elem?-set_ne b x (places-ne c h n j hc nj jc))

  -- The oldest slot in front: the rest is read from the next place.
  slots-head :
      (b : List A) (c h n : ℕ)
      → slots b c h (suc n) ≡ get_elem? b (h % c) ∷ slots b c ((h + 1) % c) n
  slots-head b c h zero = ap (λ k. get_elem? b (k % c) ∷ []) (omega arith)
  slots-head b c h (suc n) =
      ap₂ (λ s o. s ++ (o ∷ [])) (slots-head b c h n)
        (ap (get_elem? b) (ap (λ k. k % c) (omega arith) ∙ sym (mod-add-mod (h + 1) c n)))

  -- The bounded queue that the buffer stands for: an entry that does not fit pushes the oldest out.
  unfoldable pub enqueue : ℕ → List (Option A) → Option A → List (Option A)
  enqueue capacity q x =
      if capacity == 0 then q else (if length q == capacity then drop 1 q else q) ++ (x ∷ [])

  -- Taking the oldest slot off moves the head by one place.
  slots-tail :
      (b : List A) (c h n : ℕ)
      → h < c
      → n ≢ 0
      → slots b c h n ≡ get_elem? b h ∷ slots b c ((h + 1) % c) (n - 1)
  slots-tail b c h zero hc p = absurd (p refl)
  slots-tail b c h (suc n) hc p =
      let last : n ≡ suc n - 1 = omega arith in
      slots-head b c h n
      ∙ ap₂ (λ k m. get_elem? b k ∷ slots b c ((h + 1) % c) m) (mod-eq_of_lt hc) last

  contents-make_room :
      {r : Ring A}
      → r.capacity ≢ 0
      → IsValid r
      → contents (make_room r)
        ≡ (if length (contents r) == r.capacity then drop 1 (contents r) else contents r)
  unfolding make_room
  contents-make_room {r} h v = ground (
    arith,
    length-slots r.buffer r.capacity r.head r.size,
    slots-tail r.buffer r.capacity r.head r.size,
  )

  contents-store :
      {r : Ring A} (x : A)
      → r.size < r.capacity
      → IsValid r
      → contents (store r x) ≡ contents r ++ (some x ∷ [])
  unfolding store
  contents-store {r} x h v =
      let one : add_size r.size 1 ≡ suc r.size = omega arith in
      let place : add_size r.head r.size ≡ r.head + r.size = omega arith in
      let stored : store r x ≡ record r {
        buffer = set r.buffer ((r.head + r.size) % r.capacity) x;
        size = suc r.size;
      } =
        λ i. record r { buffer = set r.buffer (place i % r.capacity) x; size = one i } in
      ap contents stored
      ∙ ap₂ (λ s o. s ++ (o ∷ []))
          (slots-set r.buffer r.capacity r.head r.size r.size x (omega arith) (omega arith) h)
          (get_elem?-set_self r.buffer ((r.head + r.size) % r.capacity) x (omega arith))

  -- `push` appends the frame to what a valid ring holds, and drops the oldest one if the ring is
  -- full; a ring of no capacity is left as it is.
  pub push_refines :
      {r : Ring A} (frame : A)
      → IsValid r
      → contents (push r frame) ≡ enqueue r.capacity (contents r) (some frame)
  unfolding push enqueue
  push_refines {r} frame v = elim (Bool-cases (r.capacity == 0)) [
    | inl e ↦ rw (e, push)
    | inr e ↦
        let room = make_room-IsValid {r = r} (ground arith) v in
        rw (e, push)
          (contents-store frame room.1 room.0
            ∙ ap (λ q. q ++ (some frame ∷ [])) (contents-make_room (ground arith) v))
  ]

  -- `pop` waits exactly on a ring that holds nothing, never reads out of bounds, and else returns
  -- the oldest frame and leaves the others in order.
  abbrev pub Pops : List (Option A) → Pop A → Type 0
  Pops q blocks = q ≡ []
  Pops q fault = ⊥
  Pops q (popped frame r) = q ≡ some frame ∷ contents r

  -- `pop` on a valid ring waits if it holds nothing, and takes the oldest frame else: it never reads
  -- outside of the slots.
  pub pop_refines : {r : Ring A} → IsValid r → Pops (contents r) (pop r)
  unfolding pop
  pop_refines {r} v = elim (Bool-cases (r.size == 0)) [
    | inl e ↦ let none_left : r.size ≡ 0 = ground arith in rw (e, pop) (rw none_left)
    | inr e ↦
        let (frame, read) = get_elem?-some r.buffer r.head (ground arith) in
        let next : add_size r.head 1 ≡ r.head + 1 = omega arith in
        rw (e, read, pop, next)
          (rw read at (slots-tail r.buffer r.capacity r.head r.size (ground arith) (ground arith)))
  ]
