-- ===== src/Dvr/Worker/Invariant.antt =====
-- The worker keeps the invariant of the recorder, and to which frames it gives the muxer.
use amldigital_fpv.Prelude.{
  ℕ, ◌+◌, ◌-◌, ◌%◌, ◌^◌, ◌≡◌, refl, ◌∙◌, sym, ap, subst, Bool, List, inl, inr, true, false, ◌∷◌,
  Option, none, some, arith, Bool-cases,
}
use amldigital_fpv.Floats.{Floats}
use amldigital_fpv.Ring.{Ring, Pop, blocks, fault, popped}
use amldigital_fpv.Ring
use amldigital_fpv.Ring.Invariant.{push-IsValid, capacity-push}
use amldigital_fpv.Dvr.World.{Frame, Env, read_clock}
use amldigital_fpv.Dvr.State.{Command, start, stop, frame, shutdown, Recorder, update_frame_rate}
use amldigital_fpv.Dvr.Writer.{log, open_writer}
use amldigital_fpv.Dvr.Writer.Callback.{frames_written}
use amldigital_fpv.Dvr.Writer.Balance.{close_writer-Closes, open_writer-Opens}
use amldigital_fpv.Dvr.Worker.{
  on_start, finish_recording, warm_up, finish_warmup, begin_warmup, count_frame, record_frame,
  on_frame, handle, warmup_rate,
}
use amldigital_fpv.Dvr.Worker.Sound.{
  IsConsistent, finish_recording-IsConsistent, finish_recording-size, finish_recording-frames,
  on_start-IsConsistent,
}
use amldigital_fpv.Dvr.Worker.Rounds.{write_frame-IsRound, record_frame-stalled, drain-ready}

-- The frames that were written before, and this one, if the writer is ready.
abbrev pub with_frame : Bool → Frame → List Frame → List Frame
with_frame true f fs = f ∷ fs
with_frame false f fs = fs

module _ (env : Env) where
  record_ready :
      (f : Frame) (s : Recorder)
      → IsConsistent s
      → s.writer_ready ≡ true
      → let s' = record_frame env f s in
        IsConsistent s'
        × (frames_written s'.history ≡ with_frame s.writer_ready f (frames_written s.history))
  unfolding record_frame
  record_ready f s c ready =
      let fuel = (Ring.push s.ring_buffer (some f)).size in
      let (q, d, e) = drain-ready env f fuel s c ready in
      let t = write_frame-IsRound env f (record s { ring_buffer = q }) d in
      (
        subst IsConsistent (sym e) t.consistent,
        ap (λ u. frames_written u.history) e
            ∙ t.frames
            ∙ ap (λ b. with_frame b f (frames_written s.history)) (sym ready),
      )

  -- A recording gives the muxer each frame at once, if the writer is ready; and keeps the invariant.
  record_frame-IsConsistent :
      (f : Frame) (s : Recorder)
      → s.recording ≡ true
      → s.warmup_done ≡ true
      → IsConsistent s
      → let s' = record_frame env f s in
        IsConsistent s'
        × (frames_written s'.history ≡ with_frame s.writer_ready f (frames_written s.history))
  record_frame-IsConsistent f s r w c = elim (Bool-cases s.writer_ready) [
    | inl ready ↦ record_ready f s c ready
    | inr stalled ↦ ground (
      arith,
      record_frame-stalled env f s stalled,
      push-IsValid {r = s.ring_buffer} (some f) c.sound.ring,
      capacity-push s.ring_buffer (some f),
    )
  ]

-- What the muxer has got after a command.
abbrev pub written_after : Command → Bool → List Frame → List Frame
written_after (frame (some f)) ready fs = with_frame ready f fs
written_after (frame none) ready fs = fs
written_after start ready fs = fs
written_after stop ready fs = fs
written_after shutdown ready fs = fs

abbrev Keeps : Recorder → Recorder → Type 0
Keeps s s' = IsConsistent s' × (frames_written s'.history ≡ frames_written s.history)

on_start-frames : (s : Recorder) → frames_written (on_start s).history ≡ frames_written s.history
unfolding on_start
on_start-frames s = ground arith

module _ (floats : Floats) (env : Env) where
  open floats use {Double}

  update_frame_rate-rest :
      (fps : Double) (s : Recorder)
      → let s' = update_frame_rate floats fps s in
        s' ≡ record s { frame_duration = s'.frame_duration }
  unfolding update_frame_rate
  update_frame_rate-rest fps s = ground arith

  finish_warmup-IsConsistent :
      (elapsed : ℕ) (s : Recorder)
      → s.recording ≡ true
      → s.warmup_done ≡ false
      → IsConsistent s
      → Keeps s (finish_warmup floats env elapsed s)
  unfolding finish_warmup
  finish_warmup-IsConsistent elapsed s r w c =
      let opened = open_writer-Opens env false s (ground arith) (ground arith) in
      let t = open_writer env false s in
      ground (
        arith,
        opened,
        update_frame_rate-rest (warmup_rate floats s.warmup_frame_count elapsed) t.1,
      )

  warm_up-IsConsistent :
      (s : Recorder)
      → s.recording ≡ true
      → s.warmup_done ≡ false
      → IsConsistent s
      → Keeps s (warm_up floats env s)
  unfolding warm_up
  warm_up-IsConsistent s r w c =
      let t = count_frame (begin_warmup env s) in
      let elapsed = (env.clock t.history + 2 ^ 64 - t.warmup_start_ms) % 2 ^ 64 in
      let t' = log read_clock t in
      let c' : IsConsistent t'
          × (t'.recording ≡ true)
          × (t'.warmup_done ≡ false)
          × (frames_written t'.history ≡ frames_written s.history) =
        ground arith in
      ground (arith, c', finish_warmup-IsConsistent elapsed t' c'.1 c'.2 c'.0)

  on_frame-IsConsistent :
      (f : Option Frame) (s : Recorder)
      → IsConsistent s
      → let s' = on_frame floats env f s in
        IsConsistent s'
        × (frames_written s'.history
            ≡ written_after (frame f) s.writer_ready (frames_written s.history))
  unfolding on_frame
  on_frame-IsConsistent none s c = (c, refl)
  on_frame-IsConsistent (some f) s c =
      ground (arith, warm_up-IsConsistent s, record_frame-IsConsistent env f s)

  -- The worker keeps the invariant, whatever the command, the state and the answers from outside;
  -- and it gives the muxer exactly the frame of a frame command that finds the writer ready.
  pub handle-IsConsistent :
      (cmd : Command) (s : Recorder)
      → IsConsistent s
      → let s' = handle floats env cmd s in
        IsConsistent s'
        × (frames_written s'.history ≡ written_after cmd s.writer_ready (frames_written s.history))
  unfolding handle
  handle-IsConsistent start s c = (on_start-IsConsistent env s c, on_start-frames s)
  handle-IsConsistent stop s c = (
    finish_recording-IsConsistent env s c.sound.ring c.sound.capacity c.sound.balanced,
    finish_recording-frames env s c.sound.balanced,
  )
  handle-IsConsistent (frame f) s c = on_frame-IsConsistent f s c
  handle-IsConsistent shutdown s c =
      let t = record s { running = false } in
      let u = finish_recording-IsConsistent env t c.sound.ring c.sound.capacity (ground arith) in
      ground (
        arith,
        u,
        finish_recording-size env t,
        finish_recording-frames env t,
        close_writer-Closes env true (finish_recording env t) u.sound.balanced,
      )
