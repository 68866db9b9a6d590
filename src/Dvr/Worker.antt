-- ===== src/Dvr/Worker.antt =====
-- `DvrRecorder::worker_loop` of src/dvr_recorder.cpp: the thread that takes the commands from the
-- queue, warms up for a second, opens the writer and hands it the frames.
pub mod Sound
pub mod Waiting
pub mod Rounds
pub mod Invariant
pub mod Failures
use amldigital_fpv.Prelude.{
  ℕ, zero, suc, ◌+◌, ◌-◌, ◌%◌, ◌^◌, Bool, true, false, not, ◌&&◌, List, [], ◌∷◌, Option, none, some,
  ltb, leb, ◌==◌, if◌then◌else◌,
}
use amldigital_fpv.Floats.{Floats}
use amldigital_fpv.Ring.{Ring, Pop, blocks, fault, popped}
use amldigital_fpv.Ring
use amldigital_fpv.Dvr.World.{
  Frame, Status, status_ok, bad_arguments, failure, read_clock, nal_written, Env,
}
use amldigital_fpv.Dvr.State.{
  Command, start, stop, frame, shutdown, Recorder, default_frame_duration, update_frame_rate,
}
use amldigital_fpv.Dvr.Writer.{
  log, max_fat32_size, run_mux, open_writer, close_writer, rotate_recording_file,
}

unfoldable pub reset_warmup_state : Recorder → Recorder
reset_warmup_state s = record s { warmup_done = false; warmup_start_ms = 0; warmup_frame_count = 0 }

unfoldable pub clear_ring : Recorder → Recorder
unfolding Ring.clear
clear_ring s = record s { ring_buffer = Ring.clear s.ring_buffer }

unfoldable pub on_start : Recorder → Recorder
unfolding reset_warmup_state clear_ring
on_start s =
    if not s.recording then record (reset_warmup_state (clear_ring s)) { recording = true } else s

-- `Stop`, the end of `Shutdown`, and the answer to failing writes.
unfoldable pub finish_recording : Env → Recorder → Recorder
unfolding reset_warmup_state clear_ring
finish_recording env s = reset_warmup_state (clear_ring (close_writer env true s))

unfoldable pub ready_to_write : Recorder → Bool
ready_to_write s = s.recording && s.writer_ready

-- The first frame starts the clock; each frame is counted, and none is kept.
unfoldable pub begin_warmup : Env → Recorder → Recorder
unfolding log
begin_warmup env s =
    if s.warmup_start_ms == 0
    then log read_clock (record s { warmup_start_ms = env.clock s.history; warmup_frame_count = 0 })
    else s

unfoldable pub count_frame : Recorder → Recorder
count_frame s = record s { warmup_frame_count = (s.warmup_frame_count + 1) % 2 ^ 32 }

-- The end of the warm-up, a second after its first frame.
module _ (floats : Floats) where
  open floats use {Double, of_ℕ, mul, div, ceil, le}

  -- `max(1.0, ceil(frames * 1000.0 / elapsed))`
  unfoldable pub warmup_rate : ℕ → ℕ → Double
  warmup_rate frames elapsed =
      let fps = ceil (div (mul (of_ℕ frames) (of_ℕ 1000)) (of_ℕ elapsed)) in
      if le fps (of_ℕ 1) then of_ℕ 1 else fps

  unfoldable pub finish_warmup : Env → ℕ → Recorder → Recorder
  unfolding reset_warmup_state clear_ring
  finish_warmup env elapsed s =
      let fps = warmup_rate s.warmup_frame_count elapsed in
      let (opened, s') = open_writer env false s in
      if opened
      then record (update_frame_rate floats fps s') {
        warmup_done = true;
        warmup_start_ms = 0;
        warmup_frame_count = 0;
      }
      else clear_ring (reset_warmup_state (record s' { recording = false }))

  unfoldable pub warm_up : Env → Recorder → Recorder
  unfolding begin_warmup count_frame log
  warm_up env s =
      let t = count_frame (begin_warmup env s) in
      let elapsed = (env.clock t.history + 2 ^ 64 - t.warmup_start_ms) % 2 ^ 64 in
      let t' = log read_clock t in
      if leb 1000 elapsed && ltb 0 t.warmup_frame_count then finish_warmup env elapsed t' else t'

-- One round of the loop that writes: whether it is left, or its test is made again.
pub data Round : Type 0 where
  leave : Recorder → Round
  again : Recorder → Round

abbrev pub outcome : Round → Recorder
outcome (leave s) = s
outcome (again s) = s

unfoldable pub write_nal : Env → Frame → ℕ → Recorder → Status × Recorder
unfolding log
write_nal env f duration s =
    let (status, s') = run_mux env (env.mp4_write_nal s.history f duration) s in
    (status, log (nal_written f duration status) s')

-- `if (rotate_requested_) …`
unfoldable pub rotate_if_requested : Env → Recorder → Recorder
rotate_if_requested env s =
    if s.rotate_requested
    then (rotate_recording_file env (record s { rotate_requested = false })).1
    else s

-- `if (stop_requested_) … else if (current_file_bytes_ >= kMaxFat32Size) …`
unfoldable pub stop_or_rotate : Env → Recorder → Round
stop_or_rotate env s =
    if s.stop_requested
    then leave (finish_recording env (record s { stop_requested = false }))
    else if leb max_fat32_size s.current_file_bytes
    then again (rotate_recording_file env s).1
    else again s

unfoldable pub after_write : Env → Status → Recorder → Round
after_write env failure s = leave (record s { stop_requested = true })
after_write env status_ok s = stop_or_rotate env (rotate_if_requested env s)
after_write env bad_arguments s = stop_or_rotate env (rotate_if_requested env s)

unfoldable pub sample_duration : Recorder → ℕ
sample_duration s = if s.frame_duration == 0 then default_frame_duration else s.frame_duration

unfoldable pub write_frame : Env → Frame → Recorder → Round
write_frame env f s =
    let (status, s') = write_nal env f (sample_duration s) s in after_write env status s'

-- After the loop's test the ring holds a frame: `pop` does not wait.
unfoldable pub on_pop : Env → Recorder → Pop (Option Frame) → Round
on_pop env s blocks = leave s
on_pop env s fault = leave s
on_pop env s (popped none r) = leave (record s { ring_buffer = r })
on_pop env s (popped (some f) r) = write_frame env f (record s { ring_buffer = r })

unfoldable pub may_write : Recorder → Bool
unfolding Ring.empty ready_to_write
may_write s = ready_to_write s && s.warmup_done && not (Ring.empty s.ring_buffer)

-- The loop, on fuel: a round takes a frame from the ring, so more fuel than frames is enough.
unfoldable pub drain : Env → ℕ → Recorder → Recorder
drain env zero s = s
drain env (suc fuel) s = elim (may_write s) [
  | false ↦ s
  | true ↦ elim (on_pop env s (Ring.pop s.ring_buffer)) [
    | leave s' ↦ s'
    | again s' ↦ drain env fuel s'
  ]
]

unfoldable pub record_frame : Env → Frame → Recorder → Recorder
record_frame env f s =
    let s' = record s { ring_buffer = Ring.push s.ring_buffer (some f) } in
    drain env (suc s'.ring_buffer.size) s'

module _ (floats : Floats) (env : Env) where
  unfoldable pub on_frame : Option Frame → Recorder → Recorder
  on_frame none s = s
  on_frame (some f) s =
      if not s.recording
      then s
      else if not s.warmup_done
      then warm_up floats env s
      else record_frame env f s

  unfoldable pub handle : Command → Recorder → Recorder
  handle start s = on_start s
  handle stop s = finish_recording env s
  handle (frame f) s = on_frame f s
  -- Behind the loop the writer is closed once more.
  handle shutdown s = close_writer env true (finish_recording env (record s { running = false }))

  -- One turn of the worker: whether its thread goes on. It waits at an empty queue.
  unfoldable pub take_command : List Command → Recorder → Bool × Recorder
  take_command [] s = (true, s)
  take_command (shutdown ∷ rest) s = (false, handle shutdown (record s { queue = rest }))
  take_command (cmd ∷ rest) s = (true, handle cmd (record s { queue = rest }))

  unfoldable pub work : Recorder → Bool × Recorder
  work s = take_command s.queue s
