-- ===== src/Station/Frames/Recording.antt =====
-- What the frames do to the recorder: calls that any thread may make.
use amldigital_fpv.Prelude.{◌+◌, ◌-◌, ◌%◌, ◌^◌, ℕ, Bool, List, [], ◌∷◌, Option, some, arith}
use mathlib.Core.Option
use amldigital_fpv.Floats.{Floats}
use amldigital_fpv.Dvr.World.{Env, Frame}
use amldigital_fpv.Dvr.State.{Recorder, enqueue_frame, update_frame_rate}
use amldigital_fpv.Dvr.System.{System}
use amldigital_fpv.Station.Called.{Called, enqueue_frame-Called, update_frame_rate-Called}
use amldigital_fpv.Aml.Submit.{CodecWrite}
use amldigital_fpv.Station.Frames.{
  Flow, window_rate, count_in_window, rate_window, video_callback, take_frame, decode_round,
  finish_decoding, Happening, arrives, decodes, finishes, happen,
}

-- What both calls keep, everything that happens keeps.
module _ (floats : Floats) (P : Option Recorder → Type 0)
    (frames : (f : Option Frame) (o : Option Recorder) → P o → P (Option.map (enqueue_frame f) o))
    (rates : (fps : floats.Double) (o : Option Recorder)
      → P o
      → P (Option.map (update_frame_rate floats fps) o)) where
  rate_window-keeps : (now_ms : ℕ) (f : Flow) → P f.dvr → P (rate_window floats now_ms f).dvr
  unfolding rate_window count_in_window
  rate_window-keeps now_ms f c =
      let fps =
        window_rate floats ((f.fps_window_frames + 1) % 2 ^ 32)
          ((now_ms + 2 ^ 64 - f.fps_window_start) % 2 ^ 64) in
      ground (arith, rates fps f.dvr c)

  take_frame-keeps :
      (time_ms : ℕ) (answer : CodecWrite) (q : List (Option Frame)) (f : Flow)
      → P f.dvr
      → P (take_frame time_ms answer q f).dvr
  unfolding take_frame
  take_frame-keeps time_ms answer [] f c = c
  take_frame-keeps time_ms answer (item ∷ rest) f c = c

  pub happen-keeps : (h : Happening) (f : Flow) → P f.dvr → P (happen floats h f).dvr
  unfolding happen video_callback decode_round finish_decoding
  happen-keeps (arrives now_ms frame) f c = rate_window-keeps now_ms _ (frames (some frame) f.dvr c)
  happen-keeps (decodes time_ms answer) f c =
      ground (arith, take_frame-keeps time_ms answer f.decode_queue f c)
  happen-keeps finishes f c = c

module _ (floats : Floats) (env : Env) (s : System) (alive : Bool) where
  -- The frames that come, and the decode thread, only call methods of the recorder.
  pub happen-Called :
      (h : Happening) (f : Flow)
      → Called floats env s alive f.dvr
      → Called floats env s alive (happen floats h f).dvr
  happen-Called h f c =
      happen-keeps floats (Called floats env s alive) (enqueue_frame-Called floats env s alive)
        (update_frame_rate-Called floats env s alive) h f c
