-- ===== src/Dvr/Phases/Refine.antt =====
-- The worker of Dvr/Worker is a machine of Dvr/Phases.
use amldigital_fpv.Prelude.{
  list_laws, ◌≡◌, refl, Bool, true, false, List, [], ◌∷◌, ◌++◌, none, some, arith,
}
use mathlib.Core.List.{reverse}
use amldigital_fpv.Floats.{Floats}
use amldigital_fpv.Dvr.World.{Frame, Env}
use amldigital_fpv.Dvr.State.{Command, start, stop, frame, shutdown, Recorder}
use amldigital_fpv.Dvr.Writer.Callback.{frames_written}
use amldigital_fpv.Dvr.Writer.Balance.{close_writer-Closes}
use amldigital_fpv.Dvr.Worker.{on_start, finish_recording, on_frame, handle}
use amldigital_fpv.Dvr.Worker.Sound.{
  IsConsistent, finish_recording-IsConsistent, finish_recording-ended,
}
use amldigital_fpv.Dvr.Worker.Invariant.{written_after, handle-IsConsistent}
use amldigital_fpv.Dvr.Phases.{writing, phase, Goes, stops, ends, skips, Runs, over, more}
use amldigital_fpv.Dvr.Phases.Steps.{Goes-cast, start-Goes, frame-Goes}

-- The frames that the muxer is given for a command.
abbrev pub emitted : Command → Recorder → List Frame
emitted cmd s = written_after cmd s.writer_ready []

written_after-emitted :
    (cmd : Command) (ready : Bool) (fs : List Frame)
    → written_after cmd ready fs ≡ reverse (written_after cmd ready []) ++ fs
written_after-emitted start ready fs = refl
written_after-emitted stop ready fs = refl
written_after-emitted shutdown ready fs = refl
written_after-emitted (frame none) ready fs = refl
written_after-emitted (frame (some f)) true fs = refl
written_after-emitted (frame (some f)) false fs = refl

pub ready-writing : (s : Recorder) → IsConsistent s → s.writer_ready ≡ true → phase s ≡ writing
ready-writing s c ready = ground arith

module _ (floats : Floats) (env : Env) where
  -- One command: the worker takes a step of the machine.
  pub handle-Goes :
      (cmd : Command) (s : Recorder)
      → IsConsistent s
      → Goes (phase s) cmd (phase (handle floats env cmd s)) (emitted cmd s)
  unfolding handle on_start on_frame
  handle-Goes start s c =
      Goes-cast refl (ground arith) refl (start-Goes s.recording s.warmup_done s.writer_ready)
  handle-Goes stop s c =
      let ended = finish_recording-ended env s c.sound.balanced in
      Goes-cast refl (ground (arith, ended)) refl (stops {p = phase s})
  handle-Goes (frame none) s c = skips
  handle-Goes (frame (some f)) s c = frame-Goes floats env f s c
  handle-Goes shutdown s c =
      let t = record s { running = false } in
      let u = finish_recording-IsConsistent env t c.sound.ring c.sound.capacity (ground arith) in
      let ended = finish_recording-ended env t (ground arith) in
      let closed = close_writer-Closes env true (finish_recording env t) u.sound.balanced in
      Goes-cast refl (ground (arith, ended, closed)) refl (ends {p = phase s})

  -- The worker's turns on commands, one after the other.
  unfoldable pub handle_all : List Command → Recorder → Recorder
  handle_all [] s = s
  handle_all (cmd ∷ cmds) s = handle_all cmds (handle floats env cmd s)

  -- On any commands, from a state of the invariant and whatever the world answers, the worker does
  -- what the machine of the phases allows, and gives the muxer the frames of that run in their order.
  pub handle_all-Runs :
      (cmds : List Command) (s : Recorder)
      → IsConsistent s
      → let s' = handle_all cmds s in
        (fs : List Frame) × Runs (phase s) cmds (phase s') fs
        × (frames_written s'.history ≡ reverse fs ++ frames_written s.history)
  unfolding handle_all
  handle_all-Runs [] s c = ([], over, refl)
  handle_all-Runs (cmd ∷ cmds) s c =
      let h = handle-IsConsistent floats env cmd s c in
      let (gs, runs, written) = handle_all-Runs cmds (handle floats env cmd s) h.0 in
      let fs = emitted cmd s in
      (
        fs ++ gs,
        more (handle-Goes cmd s c) runs,
        simp (
          written,
          h.1,
          written_after-emitted cmd s.writer_ready (frames_written s.history),
          list_laws,
        ),
      )
