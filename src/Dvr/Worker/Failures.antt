-- ===== src/Dvr/Worker/Failures.antt =====
-- What becomes of a recording whose writes fail, or that has lost its writer.
use amldigital_fpv.Prelude.{
  list_laws, ℕ, ◌≡◌, ◌≢◌, refl, ◌∙◌, ap, true, false, List, [], ◌∷◌, ◌++◌, Option, some, arith,
}
use mathlib.Core.List.{reverse}
use amldigital_fpv.Floats.{Floats}
use amldigital_fpv.Ring.{Ring}
use amldigital_fpv.Ring
use amldigital_fpv.Dvr.World.{Frame, Status, status_ok, bad_arguments, failure, History, Env}
use amldigital_fpv.Dvr.State.{start, stop, frame, Recorder}
use amldigital_fpv.Dvr.Writer.{run_mux}
use amldigital_fpv.Dvr.Writer.Callback.{frames_written}
use amldigital_fpv.Dvr.Worker.{
  on_start, outcome, write_nal, rotate_if_requested, stop_or_rotate, after_write, write_frame,
  record_frame, on_frame, handle, sample_duration,
}
use amldigital_fpv.Dvr.Worker.Sound.{IsConsistent, finish_recording-ended}
use amldigital_fpv.Dvr.Worker.Rounds.{
  IsDrained, write_nal-IsDrained, rotate_if_requested-IsDrained, drain-ready, record_frame-stalled,
}
use amldigital_fpv.Dvr.Worker.Invariant.{with_frame, handle-IsConsistent}

-- Every write fails, and with another status than the one for bad arguments.
abbrev pub AlwaysFails : Env → Type 0
AlwaysFails env =
    (h : History) (f : Frame) (d : ℕ) (s : Recorder)
    → (run_mux env (env.mp4_write_nal h f d) s).0 ≡ failure

abbrev pub NeverFails : Env → Type 0
NeverFails env =
    (h : History) (f : Frame) (d : ℕ) (s : Recorder)
    → (run_mux env (env.mp4_write_nal h f d) s).0 ≢ failure

module _ (env : Env) where
  -- One frame into a ready writer, by the round that takes it.
  record_frame-ready :
      (f : Frame) (s : Recorder)
      → IsConsistent s
      → s.writer_ready ≡ true
      → (q : Ring (Option Frame)) × IsDrained (record s { ring_buffer = q })
        × (record_frame env f s ≡ outcome (write_frame env f (record s { ring_buffer = q })))
  unfolding record_frame
  record_frame-ready f s c ready =
      drain-ready env f (Ring.push s.ring_buffer (some f)).size s c ready

  write_frame-fails :
      (f : Frame) (s : Recorder)
      → AlwaysFails env
      → IsDrained s
      → let s' = outcome (write_frame env f s) in
        (s'.writer_ready ≡ s.writer_ready) × (s'.stop_requested ≡ true)
  unfolding write_frame after_write write_nal
  write_frame-fails f s fails d = ground (
    arith,
    write_nal-IsDrained env f (sample_duration s) s d,
    fails s.history f (sample_duration s) s,
  )

  stop_or_rotate-stops :
      (s : Recorder)
      → IsDrained s
      → s.stop_requested ≡ true
      → let s' = outcome (stop_or_rotate env s) in
        (s'.writer_ready ≡ false) × (s'.recording ≡ false) × (s'.stop_requested ≡ false)
  unfolding stop_or_rotate
  stop_or_rotate-stops s d stale =
      ground
        (arith, finish_recording-ended env (record s { stop_requested = false }) (ground arith))

  after_write-stops :
      (status : Status) (s : Recorder)
      → status ≢ failure
      → IsDrained s
      → s.stop_requested ≡ true
      → let s' = outcome (after_write env status s) in
        (s'.writer_ready ≡ false) × (s'.recording ≡ false) × (s'.stop_requested ≡ false)
  unfolding after_write
  after_write-stops failure s ok d stale = absurd (ok refl)
  after_write-stops status_ok s ok d stale =
      let t = rotate_if_requested-IsDrained env s d in
      stop_or_rotate-stops (rotate_if_requested env s) t.0 (t.2 ∙ stale)
  after_write-stops bad_arguments s ok d stale =
      let t = rotate_if_requested-IsDrained env s d in
      stop_or_rotate-stops (rotate_if_requested env s) t.0 (t.2 ∙ stale)

  write_nal-status :
      (f : Frame) (d : ℕ) (s : Recorder) → NeverFails env → (write_nal env f d s).0 ≢ failure
  unfolding write_nal
  write_nal-status f d s succeeds = succeeds s.history f d s

  write_frame-stops :
      (f : Frame) (s : Recorder)
      → NeverFails env
      → IsDrained s
      → s.stop_requested ≡ true
      → let s' = outcome (write_frame env f s) in
        (s'.writer_ready ≡ false) × (s'.recording ≡ false) × (s'.stop_requested ≡ false)
  unfolding write_frame
  write_frame-stops f s succeeds d stale =
      let t = write_nal env f (sample_duration s) s in
      let v = write_nal-IsDrained env f (sample_duration s) s d in
      after_write-stops t.0 t.1 (write_nal-status f (sample_duration s) s succeeds) v.0
        (v.2 ∙ stale)

module _ (floats : Floats) (env : Env) where
  -- The worker's turns on frames that were enqueued, one after the other.
  unfoldable pub handle_frames : List Frame → Recorder → Recorder
  handle_frames [] s = s
  handle_frames (f ∷ fs) s = handle_frames fs (handle floats env (frame (some f)) s)

  ready_frame :
      (f : Frame) (s : Recorder)
      → IsConsistent s
      → s.writer_ready ≡ true
      → (q : Ring (Option Frame)) × IsDrained (record s { ring_buffer = q })
        × (handle floats env (frame (some f)) s
            ≡ outcome (write_frame env f (record s { ring_buffer = q })))
  unfolding handle on_frame
  ready_frame f s c ready =
      let (q, d, e) = record_frame-ready env f s c ready in (q, d, ground arith)

  failing_frame :
      (f : Frame) (s : Recorder)
      → AlwaysFails env
      → IsConsistent s
      → s.writer_ready ≡ true
      → let s' = handle floats env (frame (some f)) s in
        (s'.writer_ready ≡ true) × (s'.stop_requested ≡ true)
  failing_frame f s fails c ready =
      let (q, d, e) = ready_frame f s c ready in
      rw e (ground (arith, write_frame-fails env f (record s { ring_buffer = q }) fails d))

  -- While every write fails, however many frames come, the recording goes on: the writer stays
  -- ready and the recording active, and each frame is given to the muxer. The stop that a failing
  -- write requests is never carried out.
  pub failing_writes_go_on :
      (fs : List Frame) (s : Recorder)
      → AlwaysFails env
      → IsConsistent s
      → s.writer_ready ≡ true
      → let s' = handle_frames fs s in
        (s'.writer_ready ≡ true)
        × (s'.recording ≡ true)
        × (frames_written s'.history ≡ reverse fs ++ frames_written s.history)
  unfolding handle_frames
  failing_writes_go_on [] s fails c ready = ground arith
  failing_writes_go_on (f ∷ fs) s fails c ready =
      let t = handle floats env (frame (some f)) s in
      let h = handle-IsConsistent floats env (frame (some f)) s c in
      let rest = failing_writes_go_on fs t fails h.0 (failing_frame f s fails c ready).0 in
      let given : frames_written t.history ≡ f ∷ frames_written s.history =
        h.1 ∙ ap (λ b. with_frame b f (frames_written s.history)) ready in
      (rest.0, rest.1, simp (rest.2, given, list_laws))

  -- A stop that an earlier failure requested, and that was not carried out, ends the recording at
  -- the first frame that is written well.
  pub stale_stop_ends_recording :
      (f : Frame) (s : Recorder)
      → NeverFails env
      → IsConsistent s
      → s.writer_ready ≡ true
      → s.stop_requested ≡ true
      → let s' = handle floats env (frame (some f)) s in
        (s'.writer_ready ≡ false) × (s'.recording ≡ false) × (s'.stop_requested ≡ false)
  stale_stop_ends_recording f s succeeds c ready stale =
      let (q, d, e) = ready_frame f s c ready in
      rw e (write_frame-stops env f (record s { ring_buffer = q }) succeeds d stale)

  -- Neither stopping the recording nor starting a new one takes the requested stop back.
  pub stop-start-stop_requested :
      (s : Recorder)
      → IsConsistent s
      → (handle floats env start (handle floats env stop s)).stop_requested ≡ s.stop_requested
  unfolding handle on_start
  stop-start-stop_requested s c = ground (arith, finish_recording-ended env s c.sound.balanced)

  start_again : (s : Recorder) → s.recording ≡ true → handle floats env start s ≡ s
  unfolding handle on_start
  start_again s r = ground arith

  stalled_frame :
      (f : Frame) (s : Recorder)
      → s.recording ≡ true
      → s.warmup_done ≡ true
      → s.writer_ready ≡ false
      → let s' = handle floats env (frame (some f)) s in
        (s'.recording ≡ true) × (s'.warmup_done ≡ true) × (s'.writer_ready ≡ false)
  unfolding handle on_frame
  stalled_frame f s r w stalled = ground (arith, record_frame-stalled env f s stalled)

  -- A recording that has lost its writer, as after a rotation that failed, writes none of the frames
  -- that come, and stays a recording without a writer: nothing opens one again.
  pub stalled_recording :
      (fs : List Frame) (s : Recorder)
      → IsConsistent s
      → s.recording ≡ true
      → s.warmup_done ≡ true
      → s.writer_ready ≡ false
      → let s' = handle_frames fs s in
        (s'.recording ≡ true)
        × (s'.writer_ready ≡ false)
        × (frames_written s'.history ≡ frames_written s.history)
        × (handle floats env start s' ≡ s')
  unfolding handle_frames
  stalled_recording [] s c r w stalled = (r, stalled, refl, start_again s r)
  stalled_recording (f ∷ fs) s c r w stalled =
      let t = handle floats env (frame (some f)) s in
      let h = handle-IsConsistent floats env (frame (some f)) s c in
      let one = stalled_frame f s r w stalled in
      let rest = stalled_recording fs t h.0 one.0 one.1 one.2 in
      (
        rest.0,
        rest.1,
        rest.2 ∙ h.1 ∙ ap (λ b. with_frame b f (frames_written s.history)) stalled,
        rest.3,
      )
