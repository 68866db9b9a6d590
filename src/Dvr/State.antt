-- ===== src/Dvr/State.antt =====
-- The state of `DvrRecorder`, its construction, and the calls that other threads make of it.
use amldigital_fpv.Prelude.{
  ℕ, Bool, true, false, not, List, [], ◌∷◌, ◌++◌, Option, none, some, ltb, ◌==◌, if◌then◌else◌,
}
use amldigital_fpv.Codec.{VideoCodec, h265}
use amldigital_fpv.Floats.{Floats}
use amldigital_fpv.Ring.{Ring}
use amldigital_fpv.Ring
use amldigital_fpv.Dvr.World.{FilePath, Frame, Handle, History}

pub data Command : Type 0 where
  start : Command
  stop : Command
  -- The frame is a pointer, which may be null.
  frame : Option Frame → Command
  shutdown : Command

pub record Recorder : Type 0 where
  -- What the recorder has asked of the outside so far.
  pub history : History
  -- `queue_`, the next command first.
  pub queue : List Command
  pub ring_buffer : Ring (Option Frame)
  pub warmup_done : Bool
  pub warmup_start_ms : ℕ
  pub warmup_frame_count : ℕ
  pub running : Bool
  pub video_width : ℕ
  pub video_height : ℕ
  pub video_fps_hint : ℕ
  pub frame_duration : ℕ
  pub codec : VideoCodec
  pub override_path : FilePath
  pub recording : Bool
  pub writer_ready : Bool
  pub file : Option Handle
  pub mux : Option Handle
  -- Whether `writer_` is allocated.
  pub writer : Bool
  pub current_file_bytes : ℕ
  pub rotate_requested : Bool
  pub stop_requested : Bool

abbrev pub default_frame_duration : ℕ
default_frame_duration = 1500

-- The members' initial values, and the constructor's `malloc`.
unfoldable pub new : Bool → Recorder
new allocated = record {
  history = [];
  queue = [];
  ring_buffer = Ring.new none 120;
  warmup_done = false;
  warmup_start_ms = 0;
  warmup_frame_count = 0;
  running = true;
  video_width = 0;
  video_height = 0;
  video_fps_hint = 0;
  frame_duration = 1500;
  codec = h265;
  override_path = [];
  recording = false;
  writer_ready = false;
  file = none;
  mux = none;
  writer = allocated;
  current_file_bytes = 0;
  rotate_requested = false;
  stop_requested = false;
}

unfoldable pub set_video_params : ℕ → ℕ → ℕ → VideoCodec → Recorder → Recorder
set_video_params width height fps_hint codec s = record s {
  video_width = width;
  video_height = height;
  video_fps_hint = fps_hint;
  codec = codec;
  frame_duration = default_frame_duration;
}

unfoldable pub set_override_path : FilePath → Recorder → Recorder
set_override_path path s = record s { override_path = path }

-- `std::clamp<uint32_t>(duration, 375, 90000)`, after the fallback for 0.
unfoldable pub clamp_duration : ℕ → ℕ
clamp_duration duration =
    let d = if duration == 0 then default_frame_duration else duration in
    if ltb d 375 then 375 else if ltb 90000 d then 90000 else d

module _ (floats : Floats) where
  open floats use {Double, of_ℕ, div, le, to_uint32}

  unfoldable pub update_frame_rate : Double → Recorder → Recorder
  unfolding clamp_duration
  update_frame_rate fps s =
      if le fps (of_ℕ 1)
      then s
      else record s { frame_duration = clamp_duration (to_uint32 (div (of_ℕ 90000) fps)) }

unfoldable pub push_command : Command → Recorder → Recorder
push_command cmd s = record s { queue = s.queue ++ (cmd ∷ []) }

unfoldable pub enqueue_frame : Option Frame → Recorder → Recorder
unfolding push_command
enqueue_frame none s = s
enqueue_frame (some f) s =
    if not s.running then s else if not s.recording then s else push_command (frame (some f)) s

unfoldable pub start_recording : Recorder → Recorder
unfolding push_command
start_recording s = if not s.running then s else push_command start s

unfoldable pub stop_recording : Recorder → Recorder
unfolding push_command
stop_recording s = if not s.running then s else push_command stop s

unfoldable pub request_shutdown : Recorder → Recorder
unfolding push_command
request_shutdown s = if not s.running then s else push_command shutdown s
