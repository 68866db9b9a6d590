-- ===== src/Dvr/Worker/Waiting.antt =====
-- The worker leaves the commands that wait as they are, and goes on up to a shutdown.
use amldigital_fpv.Prelude.{
  ℕ, zero, suc, ◌≡◌, refl, Option, none, some, Bool, true, false, arith, Option-cases, inl, inr,
}
use amldigital_fpv.Codec.{is_h265}
use amldigital_fpv.Floats.{Floats}
use amldigital_fpv.Ring.{Pop, blocks, fault, popped}
use amldigital_fpv.Ring
use amldigital_fpv.Dvr.World.{
  Muxing, writer_init, file_opened, read_clock, Frame, Handle, FilePath, Status, status_ok,
  bad_arguments, failure, Env,
}
use amldigital_fpv.Dvr.State.{Command, start, stop, frame, shutdown, Recorder, update_frame_rate}
use amldigital_fpv.Dvr.Paths.{resolve_target_file, target_in, fixed_target, make_directories}
use amldigital_fpv.Dvr.Writer.{
  log, run_mux, mp4_close, mp4_open, write_init, init_writer, allocate_writer, prepare_writer,
  open_mux, open_file, open_writer, close_mux, close_h26x, close_file, close_writer,
  rotate_recording_file,
}
use amldigital_fpv.Dvr.Writer.Callback.{run_mux-Touches}
use amldigital_fpv.Dvr.Worker.{
  reset_warmup_state, clear_ring, on_start, finish_recording, begin_warmup, count_frame,
  finish_warmup, warm_up, outcome, write_nal, rotate_if_requested, stop_or_rotate, after_write,
  write_frame, sample_duration, on_pop, drain, record_frame, on_frame, handle,
}

-- Whether commands are taken behind one.
abbrev pub runs_on : Command → Bool → Bool
runs_on shutdown running = false
runs_on _ running = running

-- The members by which other threads and the worker speak: the commands that wait, and whether more
-- are taken.
record SameCalls (s t : Recorder) : Type 0 where
  pub queue : t.queue ≡ s.queue
  pub running : t.running ≡ s.running

SameCalls-refl : (s : Recorder) → SameCalls s s
SameCalls-refl s = record { queue = refl; running = refl }

module _ (env : Env) where
  run_mux-SameCalls : {A : Type 0} (m : Muxing A) (s : Recorder) → SameCalls s (run_mux env m s).1
  run_mux-SameCalls m s = ground (arith, run_mux-Touches env m s)

  mp4_close-SameCalls : (m : Handle) (s : Recorder) → SameCalls s (mp4_close env m s)
  unfolding mp4_close log
  mp4_close-SameCalls m s = ground (arith, run_mux-SameCalls (env.mp4_close s.history m) s)

  mp4_open-SameCalls : (s : Recorder) → SameCalls s (mp4_open env s).1
  unfolding mp4_open log
  mp4_open-SameCalls s = ground (arith, run_mux-SameCalls (env.mp4_open s.history) s)

  write_init-SameCalls : (m : Handle) (s : Recorder) → SameCalls s (write_init env m s).1
  unfolding write_init log
  write_init-SameCalls m s =
      let asking = log (writer_init m) s in
      let w = is_h265 s.codec in
      ground (
        arith,
        run_mux-SameCalls (env.mp4_write_init s.history m s.video_width s.video_height w) asking,
      )

  init_writer-SameCalls :
      (mark : Bool) (f m : Handle) (s : Recorder) → SameCalls s (init_writer env mark f m s).1
  unfolding init_writer log
  init_writer-SameCalls mark f m s =
      ground (arith, write_init-SameCalls m s, mp4_close-SameCalls m (write_init env m s).1)

  prepare_writer-SameCalls :
      (mark : Bool) (f m : Handle) (s : Recorder) → SameCalls s (prepare_writer env mark f m s).1
  unfolding prepare_writer allocate_writer log
  prepare_writer-SameCalls mark f m s =
      let t = allocate_writer env s in
      ground (arith, init_writer-SameCalls mark f m t, mp4_close-SameCalls m t)

  open_mux-SameCalls :
      (mark : Bool) (f : Handle) (s : Recorder) → SameCalls s (open_mux env mark f s).1
  unfolding open_mux log
  open_mux-SameCalls mark f s = elim (Option-cases (mp4_open env s).0) [
    | inl refused ↦ ground (arith, mp4_open-SameCalls s)
    | inr (m, opened) ↦
        ground (arith, mp4_open-SameCalls s, prepare_writer-SameCalls mark f m (mp4_open env s).1)
  ]

  open_file-SameCalls :
      (mark : Bool) (path : FilePath) (s : Recorder) → SameCalls s (open_file env mark path s).1
  unfolding open_file log
  open_file-SameCalls mark path s = elim (Option-cases (env.fopen s.history path)) [
    | inl refused ↦ ground arith
    | inr (f, opened) ↦
        let t = record (log (file_opened f) s) { file = some f } in
        ground (arith, open_mux-SameCalls mark f t)
  ]

  resolve_target_file-SameCalls : (s : Recorder) → SameCalls s (resolve_target_file env s).1
  unfolding resolve_target_file fixed_target target_in make_directories
  resolve_target_file-SameCalls s = ground arith

  open_writer-SameCalls : (mark : Bool) (s : Recorder) → SameCalls s (open_writer env mark s).1
  unfolding open_writer
  open_writer-SameCalls mark s =
      let t = resolve_target_file env s in
      ground (arith, resolve_target_file-SameCalls s, open_file-SameCalls mark t.0 t.1)

  close_mux-SameCalls : (s : Recorder) → SameCalls s (close_mux env s)
  unfolding close_mux
  close_mux-SameCalls s = elim (Option-cases s.mux) [
    | inl none_open ↦ ground arith
    | inr (m, open') ↦ ground (arith, mp4_close-SameCalls m s)
  ]

  close_writer-SameCalls : (clear : Bool) (s : Recorder) → SameCalls s (close_writer env clear s)
  unfolding close_writer close_h26x close_file log
  close_writer-SameCalls clear s =
      ground (arith, close_mux-SameCalls (record s { writer_ready = false }))

  rotate-SameCalls : (s : Recorder) → SameCalls s (rotate_recording_file env s).1
  unfolding rotate_recording_file
  rotate-SameCalls s =
      let t = close_writer env false s in
      ground (arith, close_writer-SameCalls false s, open_writer-SameCalls false t)

  finish_recording-SameCalls : (s : Recorder) → SameCalls s (finish_recording env s)
  unfolding finish_recording reset_warmup_state clear_ring
  finish_recording-SameCalls s = ground (arith, close_writer-SameCalls true s)

  stop_or_rotate-SameCalls : (s : Recorder) → SameCalls s (outcome (stop_or_rotate env s))
  unfolding stop_or_rotate
  stop_or_rotate-SameCalls s =
      let stopping = record s { stop_requested = false } in
      ground (arith, finish_recording-SameCalls stopping, rotate-SameCalls s)

  after_write-SameCalls :
      (status : Status) (s : Recorder) → SameCalls s (outcome (after_write env status s))
  unfolding after_write rotate_if_requested
  after_write-SameCalls failure s = record { queue = refl; running = refl }
  after_write-SameCalls status_ok s =
      let rotating = record s { rotate_requested = false } in
      ground
        (arith, rotate-SameCalls rotating, stop_or_rotate-SameCalls (rotate_if_requested env s))
  after_write-SameCalls bad_arguments s =
      let rotating = record s { rotate_requested = false } in
      ground
        (arith, rotate-SameCalls rotating, stop_or_rotate-SameCalls (rotate_if_requested env s))

  write_frame-SameCalls : (f : Frame) (s : Recorder) → SameCalls s (outcome (write_frame env f s))
  unfolding write_frame write_nal log
  write_frame-SameCalls f s =
      let (status, t) = write_nal env f (sample_duration s) s in
      ground (
        arith,
        run_mux-SameCalls (env.mp4_write_nal s.history f (sample_duration s)) s,
        after_write-SameCalls status t,
      )

  on_pop-SameCalls :
      (s : Recorder) (p : Pop (Option Frame)) → SameCalls s (outcome (on_pop env s p))
  unfolding on_pop
  on_pop-SameCalls s blocks = SameCalls-refl s
  on_pop-SameCalls s fault = SameCalls-refl s
  on_pop-SameCalls s (popped none r) = record { queue = refl; running = refl }
  on_pop-SameCalls s (popped (some f) r) =
      ground (arith, write_frame-SameCalls f (record s { ring_buffer = r }))

  drain-SameCalls : (fuel : ℕ) (s : Recorder) → SameCalls s (drain env fuel s)
  unfolding drain
  drain-SameCalls zero s = SameCalls-refl s
  drain-SameCalls (suc fuel) s =
      let round = on_pop env s (Ring.pop s.ring_buffer) in
      ground
        (arith, on_pop-SameCalls s (Ring.pop s.ring_buffer), drain-SameCalls fuel (outcome round))

  record_frame-SameCalls : (f : Frame) (s : Recorder) → SameCalls s (record_frame env f s)
  unfolding record_frame
  record_frame-SameCalls f s =
      let pushed = Ring.push s.ring_buffer (some f) in
      ground (arith, drain-SameCalls (suc pushed.size) (record s { ring_buffer = pushed }))

module _ (floats : Floats) (env : Env) where
  warm_up-SameCalls : (s : Recorder) → SameCalls s (warm_up floats env s)
  unfolding warm_up finish_warmup begin_warmup count_frame update_frame_rate reset_warmup_state
      clear_ring log
  warm_up-SameCalls s =
      let t = log read_clock (count_frame (begin_warmup env s)) in
      ground (arith, open_writer-SameCalls env false t)

  -- A command leaves what waits behind it, and only a shutdown clears the flag.
  handle-SameCalls :
      (cmd : Command) (s : Recorder)
      → let s' = handle floats env cmd s in
        (s'.queue ≡ s.queue) × (s'.running ≡ runs_on cmd s.running)
  unfolding handle on_start on_frame reset_warmup_state clear_ring
  handle-SameCalls start s = ground arith
  handle-SameCalls stop s = ground (arith, finish_recording-SameCalls env s)
  handle-SameCalls (frame none) s = (refl, refl)
  handle-SameCalls (frame (some f)) s =
      ground (arith, warm_up-SameCalls s, record_frame-SameCalls env f s)
  handle-SameCalls shutdown s =
      let over = record s { running = false } in
      ground (
        arith,
        finish_recording-SameCalls env over,
        close_writer-SameCalls env true (finish_recording env over),
      )

  -- The commands that wait behind one are those that waited before.
  pub handle-queue : (cmd : Command) (s : Recorder) → (handle floats env cmd s).queue ≡ s.queue
  handle-queue cmd s = (handle-SameCalls cmd s).0

  pub handle-running :
      (cmd : Command) (s : Recorder) → (handle floats env cmd s).running ≡ runs_on cmd s.running
  handle-running cmd s = (handle-SameCalls cmd s).1
