-- ===== src/Aml/Submit.antt =====
-- `aml_submit_decode_unit` of src/aml.c: the time stamp of a frame, and its hand-over to the decoder.
pub mod Stamps
use amldigital_fpv.Prelude.{ℕ, ◌+◌, ◌-◌, ◌*◌, ◌%◌, ◌^◌, List, [], ◌∷◌, leb, if◌then◌else◌}
use amldigital_fpv.Prelude.Int.{ℤ, pos}

-- What `codec_write` did: the bytes that it took, or the failure, with whether `errno` is EAGAIN.
pub data CodecWrite : Type 0 where
  wrote : ℕ → CodecWrite
  would_block : ℤ → CodecWrite
  failed : ℤ → CodecWrite

pub data DecoderCall : Type 0 where
  checkin_pts_us64 : ℕ → DecoderCall
  codec_write : List ℕ → DecoderCall
  codec_reset : DecoderCall
  sleep_us : ℕ → DecoderCall

-- `last_pts_us`, and the calls of the decoder, the last one in front.
pub record Decoder : Type 0 where
  pub last_pts_us : ℕ
  pub calls : List DecoderCall

-- `(get_time_ms() - 8) * 1000ULL`, as a `uint64_t`.
unfoldable pub wall_pts : ℕ → ℕ
wall_pts time_ms = (time_ms + 2 ^ 64 - 8) % 2 ^ 64 * 1000 % 2 ^ 64

-- A stamp that does not come after the last one is put a millisecond behind that.
unfoldable pub next_pts : ℕ → ℕ → ℕ
unfolding wall_pts
next_pts time_ms last =
    if leb (wall_pts time_ms) last then (last + 1000) % 2 ^ 64 else wall_pts time_ms

-- The result of `codec_write` decides: an error resets the decoder, a full decoder is given time.
-- `errCounter` is new in every call, and at most 1: the message of a time-out is never logged.
unfoldable pub after_codec_write : CodecWrite → List DecoderCall → List DecoderCall
after_codec_write (wrote n) calls = calls
after_codec_write (would_block code) calls = sleep_us (2 * 1000) ∷ calls
after_codec_write (failed code) calls = codec_reset ∷ calls

unfoldable pub api_result : CodecWrite → ℤ
api_result (wrote n) = pos n
api_result (would_block code) = code
api_result (failed code) = code

-- `time_ms` is `get_time_ms()`, and `answer` what `codec_write` does.
unfoldable pub aml_submit_decode_unit : ℕ → CodecWrite → List ℕ → Decoder → ℤ × Decoder
unfolding next_pts after_codec_write api_result
aml_submit_decode_unit time_ms answer unit d =
    let pts = next_pts time_ms d.last_pts_us in
    (
      api_result answer,
      record {
        last_pts_us = pts;
        calls = after_codec_write answer (codec_write unit ∷ checkin_pts_us64 pts ∷ d.calls);
      },
    )

-- A frame that is submitted: when, what the decoder does, and its bytes.
pub record Submission : Type 0 where
  pub time_ms : ℕ
  pub answer : CodecWrite
  pub bytes : List ℕ

-- The decode thread of src/main.cpp hands over one frame after the other.
unfoldable pub submit_all : List Submission → Decoder → Decoder
submit_all [] d = d
submit_all (u ∷ us) d = submit_all us (aml_submit_decode_unit u.time_ms u.answer u.bytes d).1
