-- ===== src/Dvr/Worker/Sound.antt =====
-- The invariant of the recorder between two commands, and that opening, closing and starting keep it.
use amldigital_fpv.Prelude.{◌≡◌, refl, ◌⊎◌, true, false, arith}
use amldigital_fpv.Ring.Invariant.{IsValid}
use amldigital_fpv.Dvr.World.{Env}
use amldigital_fpv.Dvr.State.{Recorder}
use amldigital_fpv.Dvr.Writer.{close_writer, rotate_recording_file}
use amldigital_fpv.Dvr.Writer.Callback.{frames_written}
use amldigital_fpv.Dvr.Writer.Balance.{IsBalanced, close_writer-Closes, open_writer-Opens}
use amldigital_fpv.Dvr.Worker.{on_start, finish_recording}

-- What holds at any time: the ring is sound, nothing is leaked, a ready writer belongs to a
-- recording that is warmed up, and a warm-up ends only in a recording.
pub record IsSound (s : Recorder) : Type 0 where
  pub ring : IsValid s.ring_buffer
  pub capacity : s.ring_buffer.capacity ≡ 120
  pub balanced : IsBalanced s
  pub ready : (s.writer_ready ≡ false) ⊎ ((s.recording ≡ true) × (s.warmup_done ≡ true))
  pub warm : (s.warmup_done ≡ false) ⊎ (s.recording ≡ true)

-- Between two commands, moreover, frames wait only in a recording that has lost its writer.
pub record IsConsistent (s : Recorder) : Type 0 where
  pub sound : IsSound s
  pub no_backlog : ((s.writer_ready ≡ false) × (s.warmup_done ≡ true)) ⊎ (s.ring_buffer.size ≡ 0)

-- What a change of files leaves alone.
pub record Rotates (s : Recorder) (s' : Recorder) : Type 0 where
  pub rest : s' ≡ record s {
    history = s'.history;
    file = s'.file;
    mux = s'.mux;
    writer = s'.writer;
    writer_ready = s'.writer_ready;
    current_file_bytes = s'.current_file_bytes;
    rotate_requested = s'.rotate_requested;
    frame_duration = s'.frame_duration;
  }
  pub frames : frames_written s'.history ≡ frames_written s.history
  pub balanced : IsBalanced s'

module _ (env : Env) where
  pub rotate-Rotates :
      (s : Recorder) → s.recording ≡ true → IsBalanced s → Rotates s (rotate_recording_file env s).1
  unfolding rotate_recording_file
  rotate-Rotates s r b =
      let closed = close_writer-Closes env false s b in
      let t = close_writer env false s in
      let opened = open_writer-Opens env false t (ground arith) closed.none_open in ground arith

  pub rotate-IsSound :
      (s : Recorder)
      → s.recording ≡ true
      → s.warmup_done ≡ true
      → IsSound s
      → IsSound (rotate_recording_file env s).1
  rotate-IsSound s r w v = ground (arith, rotate-Rotates s r v.balanced)

  pub finish_recording-IsConsistent :
      (s : Recorder)
      → IsValid s.ring_buffer
      → s.ring_buffer.capacity ≡ 120
      → IsBalanced s
      → IsConsistent (finish_recording env s)
  unfolding finish_recording
  finish_recording-IsConsistent s v cap b = ground (arith, close_writer-Closes env true s b)

  pub finish_recording-frames :
      (s : Recorder)
      → IsBalanced s
      → frames_written (finish_recording env s).history ≡ frames_written s.history
  unfolding finish_recording
  finish_recording-frames s b = (close_writer-Closes env true s b).frames

  pub finish_recording-running :
      (s : Recorder) → IsBalanced s → (finish_recording env s).running ≡ s.running
  unfolding finish_recording
  finish_recording-running s b = ground (arith, close_writer-Closes env true s b)

  pub finish_recording-ended :
      (s : Recorder)
      → IsBalanced s
      → let s' = finish_recording env s in
        (s'.writer_ready ≡ false) × (s'.recording ≡ false) × (s'.stop_requested ≡ s.stop_requested)
  unfolding finish_recording
  finish_recording-ended s b = ground (arith, close_writer-Closes env true s b)

  pub finish_recording-size :
      (s : Recorder)
      → ((finish_recording env s).ring_buffer.size ≡ 0)
        × ((finish_recording env s).warmup_done ≡ false)
  unfolding finish_recording
  finish_recording-size s = (refl, refl)

  pub on_start-IsConsistent : (s : Recorder) → IsConsistent s → IsConsistent (on_start s)
  unfolding on_start
  on_start-IsConsistent s c = ground arith
