-- ===== src/Receiver/Audio/Playing.antt =====
-- `play_loop` of src/audio_receiver.cpp, the playing thread from its start to its end: the decoder,
-- the output, and what is written to it.
pub mod Order
use amldigital_fpv.Prelude.{ℕ, Bool, not, ◌||◌, List, [], ◌∷◌, if◌then◌else◌}
use amldigital_fpv.Receiver.Audio.{
  AudioReceiver, Decode, enqueue_payload, play_round, Turn, arrives, plays,
}

pub data AudioCall : Type 0 where
  creates_decoder : AudioCall
  destroys_decoder : AudioCall
  opens_output : AudioCall
  writes : ℕ → AudioCall
  drains : AudioCall
  frees_output : AudioCall

-- What `opus_decoder_create` gives, a decoder and whether there is no error, and whether
-- `pa_simple_new` gives an output.
pub record Opening : Type 0 where
  pub decoder : Bool
  pub opus_ok : Bool
  pub output : Bool

-- The writes, each behind those before.
unfoldable pub write_all : List ℕ → List AudioCall → List AudioCall
write_all [] calls = calls
write_all (n ∷ ns) calls = write_all ns (writes n ∷ calls)

-- The calls, the last in front, and the receiver.
abbrev pub Played : Type 0
Played = AudioReceiver × List AudioCall

-- The loop, until the flag is cleared behind the last turn.
unfoldable pub play_turns : Decode → List Turn → AudioReceiver → List AudioCall → Played
unfolding write_all
play_turns decode [] a calls = (a, calls)
play_turns decode (arrives payload ∷ ts) a calls =
    play_turns decode ts (enqueue_payload payload a) calls
play_turns decode (plays ∷ ts) a calls =
    let (a', written) = play_round decode a in play_turns decode ts a' (write_all written calls)

-- Without the thread, payloads still arrive.
unfoldable pub unplayed : List Turn → AudioReceiver → AudioReceiver
unplayed [] a = a
unplayed (arrives payload ∷ ts) a = unplayed ts (enqueue_payload payload a)
unplayed (plays ∷ ts) a = unplayed ts a

-- The decoder is a new one.
unfoldable pub with_output : Decode → List Turn → AudioReceiver → List AudioCall → Played
unfolding play_turns
with_output decode ts a calls =
    let (a', calls') = play_turns decode ts (record a { decoded = [] }) (opens_output ∷ calls) in
    (a', destroys_decoder ∷ frees_output ∷ drains ∷ calls')

unfoldable pub created : Bool → List AudioCall
created decoder = if decoder then creates_decoder ∷ [] else []

unfoldable pub play_loop : Opening → Decode → List Turn → AudioReceiver → Played
unfolding with_output created unplayed
play_loop opening decode ts a =
    if not opening.decoder || not opening.opus_ok
    then (unplayed ts a, created opening.decoder)
    else if not opening.output
    then (unplayed ts a, destroys_decoder ∷ created opening.decoder)
    else with_output decode ts a (created opening.decoder)
