-- ===== src/Dvr/Protocol/Worker.antt =====
-- The worker of Dvr/Worker keeps to the order.
use amldigital_fpv.Prelude.{
  ◌≡◌, refl, true, false, List, [], ◌∷◌, Option, none, some, arith, Bool-cases, inl, inr, ℕ, zero,
  suc,
}
use amldigital_fpv.Floats.{Floats}
use amldigital_fpv.Ring.{Pop, blocks, fault, popped}
use amldigital_fpv.Ring
use amldigital_fpv.Dvr.World.{Frame, Status, status_ok, bad_arguments, failure, Env, read_clock}
use amldigital_fpv.Dvr.State.{Command, start, stop, frame, shutdown, Recorder, update_frame_rate}
use amldigital_fpv.Dvr.Writer.{log}
use amldigital_fpv.Dvr.Writer.Callback.{run_mux-Touches}
use amldigital_fpv.Dvr.Worker.{
  reset_warmup_state, clear_ring, on_start, finish_recording, begin_warmup, count_frame,
  ready_to_write, finish_warmup, warm_up, outcome, write_nal, rotate_if_requested, stop_or_rotate,
  after_write, may_write, write_frame, sample_duration, on_pop, drain, record_frame, on_frame,
  handle, take_command,
}
use amldigital_fpv.Dvr.Protocol.{writing, after_effect, disk, IsInOrder}
use amldigital_fpv.Dvr.Protocol.Writer.{
  IsServed, Fits-members, run_mux-IsServed, close_writer-IsInOrder, open_writer-IsInOrder,
  rotate-IsInOrder,
}

module _ (env : Env) where
  finish_recording-IsInOrder : (s : Recorder) → IsInOrder s → IsInOrder (finish_recording env s)
  unfolding finish_recording reset_warmup_state clear_ring
  finish_recording-IsInOrder s o = ground (arith, close_writer-IsInOrder env true s o)

  rotate_if_requested-IsInOrder :
      (s : Recorder) → IsInOrder s → IsInOrder (rotate_if_requested env s)
  unfolding rotate_if_requested
  rotate_if_requested-IsInOrder s o =
      ground (arith, rotate-IsInOrder env (record s { rotate_requested = false }) o)

  stop_or_rotate-IsInOrder :
      (s : Recorder) → IsInOrder s → IsInOrder (outcome (stop_or_rotate env s))
  unfolding stop_or_rotate
  stop_or_rotate-IsInOrder s o = ground (
    arith,
    finish_recording-IsInOrder (record s { stop_requested = false }) o,
    rotate-IsInOrder env s o,
  )

  after_write-IsInOrder :
      (status : Status) (s : Recorder)
      → IsInOrder s
      → IsInOrder (outcome (after_write env status s))
  unfolding after_write
  after_write-IsInOrder failure s o = o
  after_write-IsInOrder status_ok s o =
      stop_or_rotate-IsInOrder _ (rotate_if_requested-IsInOrder s o)
  after_write-IsInOrder bad_arguments s o =
      stop_or_rotate-IsInOrder _ (rotate_if_requested-IsInOrder s o)

  -- A ready writer gives a frame to the muxer that is set up for it.
  write_nal-IsInOrder :
      (f : Frame) (duration : ℕ) (s : Recorder)
      → s.writer_ready ≡ true
      → IsInOrder s
      → IsInOrder (write_nal env f duration s).1
  unfolding write_nal log disk after_effect
  write_nal-IsInOrder f duration s ready o =
      let (h, m, file, mux, at) = Fits-members s.file s.mux (disk s.history) (rw ready at o) in
      let call = env.mp4_write_nal s.history f duration in
      let v : IsServed h (writing h m) s = record { serves = refl; file = file; at = at } in
      ground (arith, run_mux-IsServed env call h (writing h m) s v, run_mux-Touches env call s)

  write_frame-IsInOrder :
      (f : Frame) (s : Recorder)
      → s.writer_ready ≡ true
      → IsInOrder s
      → IsInOrder (outcome (write_frame env f s))
  unfolding write_frame
  write_frame-IsInOrder f s ready o =
      let (status, t) = write_nal env f (sample_duration s) s in
      after_write-IsInOrder status t (write_nal-IsInOrder f (sample_duration s) s ready o)

  on_pop-IsInOrder :
      (s : Recorder) (p : Pop (Option Frame))
      → s.writer_ready ≡ true
      → IsInOrder s
      → IsInOrder (outcome (on_pop env s p))
  unfolding on_pop
  on_pop-IsInOrder s blocks ready o = o
  on_pop-IsInOrder s fault ready o = o
  on_pop-IsInOrder s (popped none r) ready o = o
  on_pop-IsInOrder s (popped (some f) r) ready o =
      write_frame-IsInOrder f (record s { ring_buffer = r }) ready o

  may_write-ready : (s : Recorder) → may_write s ≡ true → s.writer_ready ≡ true
  unfolding may_write ready_to_write
  may_write-ready s may = ground arith

  drain-IsInOrder : (fuel : ℕ) (s : Recorder) → IsInOrder s → IsInOrder (drain env fuel s)
  unfolding drain
  drain-IsInOrder zero s o = o
  drain-IsInOrder (suc fuel) s o = elim (Bool-cases (may_write s)) [
    | inl may ↦
        let round = on_pop env s (Ring.pop s.ring_buffer) in
        ground (
          arith,
          on_pop-IsInOrder s (Ring.pop s.ring_buffer) (may_write-ready s may) o,
          drain-IsInOrder fuel (outcome round),
        )
    | inr done ↦ ground arith
  ]

  record_frame-IsInOrder :
      (f : Frame) (s : Recorder) → IsInOrder s → IsInOrder (record_frame env f s)
  unfolding record_frame
  record_frame-IsInOrder f s o = drain-IsInOrder _ _ o

module _ (floats : Floats) (env : Env) where
  warm_up-IsInOrder : (s : Recorder) → IsInOrder s → IsInOrder (warm_up floats env s)
  unfolding warm_up finish_warmup begin_warmup count_frame update_frame_rate reset_warmup_state
      clear_ring log disk after_effect
  warm_up-IsInOrder s o =
      let t = log read_clock (count_frame (begin_warmup env s)) in
      let o' : IsInOrder t = ground arith in ground (arith, open_writer-IsInOrder env false t o')

  handle-IsInOrder :
      (cmd : Command) (s : Recorder) → IsInOrder s → IsInOrder (handle floats env cmd s)
  unfolding handle on_start on_frame reset_warmup_state clear_ring
  handle-IsInOrder start s o = ground (arith, o)
  handle-IsInOrder stop s o = finish_recording-IsInOrder env s o
  handle-IsInOrder (frame none) s o = o
  handle-IsInOrder (frame (some f)) s o =
      ground (arith, o, warm_up-IsInOrder s o, record_frame-IsInOrder env f s o)
  handle-IsInOrder shutdown s o =
      let over = record s { running = false } in
      ground (
        arith,
        close_writer-IsInOrder env true (finish_recording env over)
            (finish_recording-IsInOrder env over o),
      )

  pub take_command-IsInOrder :
      (q : List Command) (s : Recorder) → IsInOrder s → IsInOrder (take_command floats env q s).1
  unfolding take_command
  take_command-IsInOrder [] s o = o
  take_command-IsInOrder (start ∷ q) s o = handle-IsInOrder start (record s { queue = q }) o
  take_command-IsInOrder (stop ∷ q) s o = handle-IsInOrder stop (record s { queue = q }) o
  take_command-IsInOrder (frame f ∷ q) s o = handle-IsInOrder (frame f) (record s { queue = q }) o
  take_command-IsInOrder (shutdown ∷ q) s o = handle-IsInOrder shutdown (record s { queue = q }) o
