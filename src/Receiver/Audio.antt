-- ===== src/Receiver/Audio.antt =====
-- AudioReceiver of src/audio_receiver.cpp: the queue of payloads, and the thread that decodes and
-- plays them. Opus and PulseAudio answer through parameters; the queue's size is taken as exact.
pub mod Playing
pub mod Heard
mod Samples
use amldigital_fpv.Prelude.{
  ℕ, suc, ◌+◌, ◌*◌, ◌%◌, ◌^◌, ◌≤◌, ◌≡◌, Bool, true, false, not, List, [], ◌∷◌, ◌++◌, ltb, ◌==◌,
  if◌then◌else◌, arith, length, length-append,
}

pub record AudioReceiver : Type 0 where
  pub running : Bool
  pub play_thread : Bool
  pub queue : List (List ℕ)
  pub pkt_count : ℕ
  pub drop_count : ℕ
  -- What the decoder has been given, the last in front: its state.
  pub decoded : List (List ℕ)

-- `kMaxQueueDepth`
abbrev pub max_queue_depth : ℕ
max_queue_depth = 256

abbrev pub new : AudioReceiver
new = record {
  running = false;
  play_thread = false;
  queue = [];
  pkt_count = 0;
  drop_count = 0;
  decoded = [];
}

unfoldable pub start : AudioReceiver → Bool × AudioReceiver
start a = if a.running then (true, a) else (true, record a { running = true; play_thread = true })

unfoldable pub stop : AudioReceiver → AudioReceiver
stop a = if not a.running then a else record a { running = false; play_thread = false }

unfoldable pub enqueue_payload : List ℕ → AudioReceiver → AudioReceiver
enqueue_payload [] a = a
enqueue_payload (b ∷ bs) a =
    if ltb max_queue_depth (length a.queue)
    then record a { drop_count = (a.drop_count + 1) % 2 ^ 64 }
    else record a { queue = a.queue ++ ((b ∷ bs) ∷ []); pkt_count = (a.pkt_count + 1) % 2 ^ 64 }

-- What `opus_decode` makes of a payload behind others: the number of samples, 0 for an error.
abbrev pub Decode : Type 0
Decode = List (List ℕ) → List ℕ → ℕ

-- One round of the playing thread;
-- the second result is the bytes that are written to PulseAudio, whose failure is only logged.
unfoldable pub play_round : Decode → AudioReceiver → AudioReceiver × List ℕ
play_round decode a = elim a.queue [
  | [] ↦ (a, [])
  | payload ∷ rest ↦
      let frame_size = decode a.decoded payload in
      (
        record a { queue = rest; decoded = payload ∷ a.decoded },
        if frame_size == 0 then [] else frame_size * 2 ∷ [],
      )
]

pub data Turn : Type 0 where
  arrives : List ℕ → Turn
  plays : Turn

-- Arrivals and rounds of the playing thread, in the order in which they happen.
unfoldable pub turns : Decode → List Turn → AudioReceiver → AudioReceiver
turns decode [] a = a
turns decode (arrives payload ∷ ts) a = turns decode ts (enqueue_payload payload a)
turns decode (plays ∷ ts) a = turns decode ts (play_round decode a).0

-- The payloads that are not empty.
unfoldable pub arrivals : List Turn → ℕ
arrivals [] = 0
arrivals (arrives [] ∷ ts) = arrivals ts
arrivals (arrives (b ∷ bs) ∷ ts) = suc (arrivals ts)
arrivals (plays ∷ ts) = arrivals ts

pub play_round-queue :
    (decode : Decode) (a : AudioReceiver)
    → let a' = (play_round decode a).0 in
      (length a'.queue ≤ length a.queue)
      × (a'.pkt_count ≡ a.pkt_count)
      × (a'.drop_count ≡ a.drop_count)
      × (length a'.queue + length a'.decoded ≡ length a.queue + length a.decoded)
unfolding play_round
play_round-queue decode a = ground arith

enqueue_payload-queue :
    (payload : List ℕ) (a : AudioReceiver)
    → length a.queue ≤ 257
    → let a' = enqueue_payload payload a in
      (length a'.queue ≤ 257)
      × ((a'.pkt_count + a'.drop_count) % 2 ^ 64
          ≡ (arrivals (arrives payload ∷ []) + (a.pkt_count + a.drop_count)) % 2 ^ 64)
      × ((a'.pkt_count + (length a.queue + length a.decoded)) % 2 ^ 64
          ≡ (a.pkt_count + (length a'.queue + length a'.decoded)) % 2 ^ 64)
unfolding enqueue_payload arrivals
enqueue_payload-queue [] a h = (h, omega arith, omega arith)
enqueue_payload-queue (b ∷ bs) a h = ground (arith, length-append a.queue ((b ∷ bs) ∷ []))

-- From a queue of 257 payloads at most, in any order of arrivals and rounds, the queue holds 257
-- payloads at most, one more than the depth. Up to a wrap of 64 bits, the two counters together count
-- every payload that is not empty once, and the first counts those that were put into the queue: what
-- waits now and what the decoder was given since, beyond what waited at first.
pub turns-queue :
    (decode : Decode) (ts : List Turn) (a : AudioReceiver)
    → length a.queue ≤ 257
    → let a' = turns decode ts a in
      (length a'.queue ≤ 257)
      × ((a'.pkt_count + a'.drop_count) % 2 ^ 64
          ≡ (arrivals ts + (a.pkt_count + a.drop_count)) % 2 ^ 64)
      × ((a'.pkt_count + (length a.queue + length a.decoded)) % 2 ^ 64
          ≡ (a.pkt_count + (length a'.queue + length a'.decoded)) % 2 ^ 64)
unfolding turns arrivals
turns-queue decode [] a h = (h, omega arith, omega arith)
turns-queue decode (arrives [] ∷ ts) a h =
    ground (arith, enqueue_payload-queue [] a h, turns-queue decode ts (enqueue_payload [] a))
turns-queue decode (arrives (b ∷ bs) ∷ ts) a h =
    let now = enqueue_payload-queue (b ∷ bs) a h in
    let rest = turns-queue decode ts (enqueue_payload (b ∷ bs) a) now.0 in
    (rest.0, omega (arith, rest.1, now.1), omega (arith, rest.2, now.2))
turns-queue decode (plays ∷ ts) a h =
    let now = play_round-queue decode a in
    let rest = turns-queue decode ts (play_round decode a).0 (omega (arith, now.0)) in
    (rest.0, omega (arith, rest.1, now.1, now.2), omega (arith, rest.2, now.1, now.3))
