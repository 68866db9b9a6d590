-- ===== src/Receiver/Audio/Playing/Order.antt =====
-- What the playing thread writes, and what it leaves open.
use amldigital_fpv.Prelude.{
  list_laws, tally, ℕ, ◌*◌, ◌≡◌, refl, sym, ◌∙◌, Bool, true, false, not, ◌&&◌, List, [], ◌∷◌, ◌++◌,
  append-nil, ltb, ◌==◌, if◌then◌else◌, arith, length,
}
use amldigital_fpv.Receiver.Audio.{
  AudioReceiver, Decode, max_queue_depth, enqueue_payload, play_round, Turn, arrives, plays,
}
use amldigital_fpv.Receiver.Audio.Playing.{
  AudioCall, creates_decoder, destroys_decoder, opens_output, writes, drains, frees_output, Opening,
  write_all, play_turns, with_output, created, play_loop,
}

abbrev pub is_creates : AudioCall → Bool
is_creates creates_decoder = true
is_creates _ = false

abbrev pub is_destroys : AudioCall → Bool
is_destroys destroys_decoder = true
is_destroys _ = false

abbrev pub is_opens : AudioCall → Bool
is_opens opens_output = true
is_opens _ = false

abbrev pub is_frees : AudioCall → Bool
is_frees frees_output = true
is_frees _ = false

abbrev is_writes : AudioCall → Bool
is_writes (writes n) = true
is_writes _ = false

-- The sizes that are written, the first in front.
unfoldable pub sizes_written : List AudioCall → List ℕ
sizes_written [] = []
sizes_written (writes n ∷ calls) = sizes_written calls ++ (n ∷ [])
sizes_written (creates_decoder ∷ calls) = sizes_written calls
sizes_written (destroys_decoder ∷ calls) = sizes_written calls
sizes_written (opens_output ∷ calls) = sizes_written calls
sizes_written (drains ∷ calls) = sizes_written calls
sizes_written (frees_output ∷ calls) = sizes_written calls

-- What payloads come to, behind those that the decoder was given before: two bytes for each sample,
-- nothing for one that does not decode.
unfoldable pub sizes : Decode → List (List ℕ) → List (List ℕ) → List ℕ
sizes decode before [] = []
sizes decode before (p ∷ ps) =
    let rest = sizes decode (p ∷ before) ps in
    if decode before p == 0 then rest else decode before p * 2 ∷ rest

-- The payloads that the queue has room for, as they arrive.
unfoldable pub queued : List ℕ → AudioReceiver → List (List ℕ)
queued [] a = []
queued (b ∷ bs) a = if ltb max_queue_depth (length a.queue) then [] else (b ∷ bs) ∷ []

unfoldable pub accepted : Decode → List Turn → AudioReceiver → List (List ℕ)
accepted decode [] a = []
accepted decode (arrives payload ∷ ts) a =
    queued payload a ++ accepted decode ts (enqueue_payload payload a)
accepted decode (plays ∷ ts) a = accepted decode ts (play_round decode a).0

pub enqueue_payload-queued :
    (payload : List ℕ) (a : AudioReceiver)
    → (enqueue_payload payload a).queue ≡ a.queue ++ queued payload a
unfolding enqueue_payload queued
enqueue_payload-queued [] a = sym (append-nil a.queue)
enqueue_payload-queued (b ∷ bs) a = ground (arith, append-nil a.queue)

enqueue_payload-decoded :
    (payload : List ℕ) (a : AudioReceiver) → (enqueue_payload payload a).decoded ≡ a.decoded
unfolding enqueue_payload
enqueue_payload-decoded [] a = refl
enqueue_payload-decoded (b ∷ bs) a = ground arith

-- A round writes what the payload in front comes to.
play_round-sizes :
    (decode : Decode) (rest : List (List ℕ)) (a : AudioReceiver)
    → let (a', written) = play_round decode a in
      sizes decode a.decoded (a.queue ++ rest)
      ≡ written ++ sizes decode a'.decoded (a'.queue ++ rest)
unfolding play_round sizes
play_round-sizes decode rest a = ground arith

write_all-sizes :
    (ns : List ℕ) (calls : List AudioCall)
    → sizes_written (write_all ns calls) ≡ sizes_written calls ++ ns
unfolding write_all sizes_written
write_all-sizes [] calls = sym (append-nil (sizes_written calls))
write_all-sizes (n ∷ ns) calls = simp (write_all-sizes ns (writes n ∷ calls), list_laws)

-- The queue before with what arrives is what is written with the queue behind.
play_turns-sizes :
    (decode : Decode) (ts : List Turn) (a : AudioReceiver) (calls : List AudioCall)
    → let (a', calls') = play_turns decode ts a calls in
      sizes_written calls' ++ sizes decode a'.decoded a'.queue
      ≡ sizes_written calls ++ sizes decode a.decoded (a.queue ++ accepted decode ts a)
unfolding play_turns accepted
play_turns-sizes decode [] a calls = simp list_laws
play_turns-sizes decode (arrives payload ∷ ts) a calls =
    let a' = enqueue_payload payload a in
    let rest = accepted decode ts a' in
    simp (
      play_turns-sizes decode ts a' calls,
      enqueue_payload-decoded payload a,
      enqueue_payload-queued payload a,
      list_laws,
    )
play_turns-sizes decode (plays ∷ ts) a calls =
    let a' = (play_round decode a).0 in
    let written = (play_round decode a).1 in
    let rest = accepted decode ts a' in
    simp (
      play_turns-sizes decode ts a' (write_all written calls),
      write_all-sizes written calls,
      play_round-sizes decode rest a,
      list_laws,
    )

tally-write_all :
    (test : AudioCall → Bool) (ns : List ℕ) (calls : List AudioCall)
    → ((n : ℕ) → test (writes n) ≡ false)
    → tally test (write_all ns calls) ≡ tally test calls
unfolding write_all tally
tally-write_all test [] calls other = refl
tally-write_all test (n ∷ ns) calls other =
    tally-write_all test ns (writes n ∷ calls) other ∙ rw (other n) refl

tally-play_turns :
    (test : AudioCall → Bool) (decode : Decode) (ts : List Turn) (a : AudioReceiver)
    (calls : List AudioCall)
    → ((n : ℕ) → test (writes n) ≡ false)
    → tally test (play_turns decode ts a calls).1 ≡ tally test calls
unfolding play_turns
tally-play_turns test decode [] a calls other = refl
tally-play_turns test decode (arrives payload ∷ ts) a calls other =
    tally-play_turns test decode ts (enqueue_payload payload a) calls other
tally-play_turns test decode (plays ∷ ts) a calls other =
    tally-play_turns test decode ts (play_round decode a).0
      (write_all (play_round decode a).1 calls) other
    ∙ tally-write_all test (play_round decode a).1 calls other

-- Where Opus gives no decoder with an error, as it documents: whatever is opened or not and whatever
-- arrives, the thread ends with every decoder destroyed and every output freed.
pub play_loop-closes :
    (opening : Opening) (decode : Decode) (ts : List Turn) (a : AudioReceiver)
    → (opening.decoder && not opening.opus_ok) ≡ false
    → let calls = (play_loop opening decode ts a).1 in
      (tally is_creates calls ≡ tally is_destroys calls)
      × (tally is_opens calls ≡ tally is_frees calls)
unfolding play_loop with_output created tally
play_loop-closes opening decode ts a documented =
    let fresh = record a { decoded = [] } in
    let calls = opens_output ∷ created opening.decoder in
    ground (
      arith,
      tally-play_turns is_creates decode ts fresh calls (λ n. refl),
      tally-play_turns is_destroys decode ts fresh calls (λ n. refl),
      tally-play_turns is_opens decode ts fresh calls (λ n. refl),
      tally-play_turns is_frees decode ts fresh calls (λ n. refl),
    )

-- Where there are a decoder and an output, what is written is, in the order of arrival, what the
-- payloads that the queue took come to, but for those that still wait. Without one of the two,
-- nothing is ever written, whatever arrives.
pub play_loop-sizes :
    (opening : Opening) (decode : Decode) (ts : List Turn) (a : AudioReceiver)
    → let (a', calls) = play_loop opening decode ts a in
      let ok = opening.decoder && opening.opus_ok && opening.output in
      sizes_written calls ++ (if ok then sizes decode a'.decoded a'.queue else []) ≡ (
        if ok
        then sizes decode [] (a.queue ++ accepted decode ts (record a { decoded = [] }))
        else [])
unfolding play_loop with_output created sizes_written
play_loop-sizes opening decode ts a = ground (
  arith,
  play_turns-sizes decode ts (record a { decoded = [] }) (opens_output ∷ created opening.decoder),
)
