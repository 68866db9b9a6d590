-- ===== src/Ring.antt =====
-- `FrameRingBuffer` of src/frame_ring_buffer.h: the bounded queue of frames that the recorder's
-- worker keeps. Each method holds `mutex_` throughout, so it is one step. `Empty` is the `cv_.wait`
-- of `pop`, and `Fault` a read outside of `buffer_`.
pub mod Invariant
pub mod Refine
mod Samples
use amldigital_fpv.Prelude.{
  ℕ, ◌+◌, ◌-◌, ◌%◌, ◌^◌, Bool, List, Option, none, some, ◌==◌, if◌then◌else◌, get_elem?, set,
  replicate,
}

-- `size_t` of the 32-bit ARM target.
abbrev pub add_size : ℕ → ℕ → ℕ
add_size a b = (a + b) % 2 ^ 32

pub record Ring (A : Type 0) : Type 0 where
  pub capacity : ℕ
  pub buffer : List A
  pub head : ℕ
  pub size : ℕ

pub data Pop (A : Type 0) : Type 0 where
  blocks : Pop A
  fault : Pop A
  popped : A → Ring A → Pop A

module _ {A : Type 0} where
  -- `null` is the value of a slot that was never written.
  unfoldable pub new : A → ℕ → Ring A
  new null capacity = record {
    capacity = capacity;
    buffer = replicate capacity null;
    head = 0;
    size = 0;
  }

  -- `if (size_ == capacity_)`: the oldest frame gives way.
  unfoldable pub make_room : Ring A → Ring A
  make_room r =
      if r.size == r.capacity
      then record r { head = add_size r.head 1 % r.capacity; size = r.size - 1 }
      else r

  unfoldable pub store : Ring A → A → Ring A
  store r frame = record r {
    buffer = set r.buffer (add_size r.head r.size % r.capacity) frame;
    size = add_size r.size 1;
  }

  unfoldable pub push : Ring A → A → Ring A
  push r frame = if r.capacity == 0 then r else store (make_room r) frame

  -- The read of `buffer_[head_]`, and what follows it.
  unfoldable pub pop_from : Ring A → Option A → Pop A
  pop_from r none = fault
  pop_from r (some frame) =
      popped frame (record r { head = add_size r.head 1 % r.capacity; size = r.size - 1 })

  unfoldable pub pop : Ring A → Pop A
  unfolding pop_from
  pop r = if r.size == 0 then blocks else pop_from r (get_elem? r.buffer r.head)

  unfoldable pub empty : Ring A → Bool
  empty r = r.size == 0

  unfoldable pub clear : Ring A → Ring A
  clear r = record r { head = 0; size = 0 }
