-- ===== src/Station/Called.antt =====
-- The recorder that the program shares: a state that calls of its methods, and turns of its worker,
-- lead to from a given one.
use amldigital_fpv.Prelude.{Bool, Option, none, some}
use mathlib.Core.Option
use amldigital_fpv.Floats.{Floats}
use amldigital_fpv.Dvr.World.{Env, Frame}
use amldigital_fpv.Dvr.State.{
  Recorder, start_recording, stop_recording, enqueue_frame, update_frame_rate, request_shutdown,
}
use amldigital_fpv.Dvr.System.{System, starts, stops, frames, rates, shuts_down, Reach, next}

module _ (floats : Floats) (env : Env) where
  open floats use {Double}

  -- The recorder after some of its calls, with its worker running or not.
  abbrev pub Called : System → Bool → Option Recorder → Type 0
  Called s alive none = ⊥
  Called s alive (some r) = Reach floats env s (record { recorder = r; alive = alive })

  module _ (s : System) (alive : Bool) where
    pub start_recording-Called :
        (o : Option Recorder) → Called s alive o → Called s alive (Option.map start_recording o)
    start_recording-Called none c = c
    start_recording-Called (some r) c = next c (starts _)

    pub stop_recording-Called :
        (o : Option Recorder) → Called s alive o → Called s alive (Option.map stop_recording o)
    stop_recording-Called none c = c
    stop_recording-Called (some r) c = next c (stops _)

    pub enqueue_frame-Called :
        (f : Option Frame) (o : Option Recorder)
        → Called s alive o
        → Called s alive (Option.map (enqueue_frame f) o)
    enqueue_frame-Called f none c = c
    enqueue_frame-Called f (some r) c = next c (frames _ f)

    pub update_frame_rate-Called :
        (fps : Double) (o : Option Recorder)
        → Called s alive o
        → Called s alive (Option.map (update_frame_rate floats fps) o)
    update_frame_rate-Called fps none c = c
    update_frame_rate-Called fps (some r) c = next c (rates _ fps)

    pub request_shutdown-Called :
        (o : Option Recorder) → Called s alive o → Called s alive (Option.map request_shutdown o)
    request_shutdown-Called none c = c
    request_shutdown-Called (some r) c = next c (shuts_down _)
