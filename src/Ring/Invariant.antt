-- ===== src/Ring/Invariant.antt =====
-- The representation invariant of the ring buffer, and that every method keeps it.
use amldigital_fpv.Prelude.{
  ℕ, ◌%◌, ◌≤◌, ◌<◌, ◌^◌, ◌≡◌, ◌⊎◌, ◌≢◌, inl, inr, Bool-cases, ◌==◌, arith, length, length-set,
  length-replicate, get_elem?-some,
}
use amldigital_fpv.Ring.{
  Ring, Pop, blocks, fault, popped, add_size, new, make_room, store, push, pop, clear,
}

module _ {A : Type 0} where
  -- An empty ring of no capacity has its head at 0.
  pub record IsValid (r : Ring A) : Type 0 where
    pub small : r.capacity ≤ 2 ^ 31
    pub storage : length r.buffer ≡ r.capacity
    pub size_in : r.size ≤ r.capacity
    pub head_in : (r.head < r.capacity) ⊎ (r.head ≡ 0)

  abbrev pub IsValidPop : Pop A → Type 0
  IsValidPop blocks = Unit
  IsValidPop fault = ⊥
  IsValidPop (popped frame r) = IsValid r

  pub new-IsValid : (null : A) (n : ℕ) → n ≤ 2 ^ 31 → IsValid (new null n)
  unfolding new
  new-IsValid null n h = ground (arith, length-replicate n null)

  pub clear-IsValid : {r : Ring A} → IsValid r → IsValid (clear r)
  unfolding clear
  clear-IsValid v = ground arith

  pub make_room-IsValid :
      {r : Ring A}
      → r.capacity ≢ 0
      → IsValid r
      → IsValid (make_room r) × ((make_room r).size < (make_room r).capacity)
  unfolding make_room
  make_room-IsValid {r} h v = ground arith

  store-IsValid :
      {r : Ring A} (frame : A) → r.size < r.capacity → IsValid r → IsValid (store r frame)
  unfolding store
  store-IsValid {r} frame h v =
      ground (arith, length-set r.buffer (add_size r.head r.size % r.capacity) frame)

  -- `push` keeps a valid ring valid.
  pub push-IsValid : {r : Ring A} (frame : A) → IsValid r → IsValid (push r frame)
  unfolding push
  push-IsValid {r} frame v = elim (Bool-cases (r.capacity == 0)) [
    | inl e ↦ rw (e, push) v
    | inr e ↦
        let room = make_room-IsValid (ground arith) v in
        rw (e, push) (store-IsValid frame room.1 room.0)
  ]

  -- A valid ring never reads outside of `buffer_`: `pop` waits on the empty ring only, and else
  -- returns a frame and a valid ring.
  pub pop-IsValidPop : {r : Ring A} → IsValid r → IsValidPop (pop r)
  unfolding pop
  pop-IsValidPop {r} v = elim (Bool-cases (r.size == 0)) [
    | inl e ↦ rw (e, pop) tt
    | inr e ↦
        let (frame, read) = get_elem?-some r.buffer r.head (ground arith) in
        rw (e, read, pop) (ground arith)
  ]

  pub capacity-push : (r : Ring A) (frame : A) → (push r frame).capacity ≡ r.capacity
  unfolding push make_room store
  capacity-push r frame = ground arith

  pub capacity-pop : (r q : Ring A) (frame : A) → pop r ≡ popped frame q → q.capacity ≡ r.capacity
  unfolding pop
  capacity-pop r q frame e = ground arith
