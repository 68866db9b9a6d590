-- ===== src/Station/Frames.antt =====
-- The frames of src/main.cpp on their way: the callback `cb`, which gives each to the decode queue
-- and to the recorder, and the decode thread. What only the log reads is left out: the sums of bytes
-- and frames, `last_queue_log_ms`, and the times of the submissions.
pub mod Order
pub mod Recording
pub mod Pulled
mod Samples
use amldigital_fpv.Prelude.{
  ℕ, ◌+◌, ◌-◌, ◌%◌, ◌^◌, Bool, true, false, ◌||◌, List, [], ◌∷◌, ◌++◌, Option, none, some, ltb, leb,
  if◌then◌else◌,
}
use mathlib.Core.Option
use amldigital_fpv.Floats.{Floats}
use amldigital_fpv.Dvr.World.{Frame}
use amldigital_fpv.Dvr.State.{Recorder, enqueue_frame, update_frame_rate}
use amldigital_fpv.Aml.Submit.{CodecWrite, Decoder, aml_submit_decode_unit}

-- `decode_queue` and `decoding_active`; `decoding` is whether the thread runs. The last two are the
-- static variables of the callback.
pub record Flow : Type 0 where
  pub decode_queue : List (Option Frame)
  pub decoding_active : Bool
  pub decoding : Bool
  pub decoder : Decoder
  pub dvr : Option Recorder
  pub fps_window_start : ℕ
  pub fps_window_frames : ℕ

unfoldable pub is_recording : Option Recorder → Bool
is_recording none = false
is_recording (some r) = r.recording

-- What is taken from the queue: nothing is submitted for the empty pointer.
unfoldable pub decode_frame : ℕ → CodecWrite → Option Frame → Decoder → Decoder
decode_frame time_ms answer none d = d
decode_frame time_ms answer (some frame) d = (aml_submit_decode_unit time_ms answer frame d).1

-- The body of the loop, at the queue: on an empty one it waits.
unfoldable pub take_frame : ℕ → CodecWrite → List (Option Frame) → Flow → Flow
unfolding decode_frame
take_frame time_ms answer [] f = f
take_frame time_ms answer (item ∷ rest) f = record f {
  decode_queue = rest;
  decoder = decode_frame time_ms answer item f.decoder;
}

unfoldable pub is_waiting : List (Option Frame) → Bool
is_waiting [] = false
is_waiting (item ∷ rest) = true

-- A round of the decode thread: the loop's test, and its body.
unfoldable pub decode_round : ℕ → CodecWrite → Flow → Flow
unfolding is_waiting
decode_round time_ms answer f =
    if f.decoding_active || is_waiting f.decode_queue
    then take_frame time_ms answer f.decode_queue f
    else record f { decoding = false }

-- The end of `main`, before it joins the thread.
unfoldable pub finish_decoding : Flow → Flow
finish_decoding f = record f {
  decoding_active = false;
  decode_queue = f.decode_queue ++ (none ∷ []);
}

-- What happens: a frame comes at a time, the decode thread makes a round, the program ends. A round
-- says when it submits and what `codec_write` does.
pub data Happening : Type 0 where
  arrives : ℕ → Frame → Happening
  decodes : ℕ → CodecWrite → Happening
  finishes : Happening

module _ (floats : Floats) where
  open floats use {Double, of_ℕ, mul, div}

  -- `fps_window_frames * 1000.0 / max(1, window_span)`
  unfoldable pub window_rate : ℕ → ℕ → Double
  window_rate frames span =
      div (mul (of_ℕ frames) (of_ℕ 1000)) (of_ℕ (if ltb span 1 then 1 else span))

  -- The frame is counted, and the rate told to the recorder at each half second.
  unfoldable pub count_in_window : ℕ → Flow → Flow
  unfolding window_rate
  count_in_window now_ms f =
      let frames = (f.fps_window_frames + 1) % 2 ^ 32 in
      let span = (now_ms + 2 ^ 64 - f.fps_window_start) % 2 ^ 64 in
      if leb 500 span
      then record f {
        dvr = Option.map (update_frame_rate floats (window_rate frames span)) f.dvr;
        fps_window_frames = 0;
        fps_window_start = now_ms;
      }
      else record f { fps_window_frames = frames }

  unfoldable pub rate_window : ℕ → Flow → Flow
  rate_window now_ms f =
      if is_recording f.dvr
      then count_in_window now_ms f
      else record f { fps_window_frames = 0; fps_window_start = now_ms }

  unfoldable pub video_callback : ℕ → Frame → Flow → Flow
  video_callback now_ms frame f = rate_window now_ms (record f {
    decode_queue = f.decode_queue ++ (some frame ∷ []);
    dvr = Option.map (enqueue_frame (some frame)) f.dvr;
  })

  unfoldable pub happen : Happening → Flow → Flow
  happen (arrives now_ms frame) f = video_callback now_ms frame f
  happen (decodes time_ms answer) f = if f.decoding then decode_round time_ms answer f else f
  happen finishes f = finish_decoding f

  unfoldable pub happen_all : List Happening → Flow → Flow
  happen_all [] f = f
  happen_all (h ∷ hs) f = happen_all hs (happen h f)
