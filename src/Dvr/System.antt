-- ===== src/Dvr/System.antt =====
-- The recorder and the threads that use it: any interleaving of the calls that they make and of the
-- turns of the worker. A call only reads `running_` and `recording_` and adds to the queue, and a
-- turn of the worker does not read the queue again, so a turn and a call can be put in an order.
pub mod Ends
pub mod Running
use amldigital_fpv.Prelude.{ℕ, ◌≡◌, Bool, true, false, List, [], ◌∷◌, Option, none, arith}
use amldigital_fpv.Floats.{Floats}
use amldigital_fpv.Ring
use amldigital_fpv.Ring.Invariant.{new-IsValid}
use amldigital_fpv.Dvr.World.{Frame, FilePath, Env}
use amldigital_fpv.Codec.{VideoCodec}
use amldigital_fpv.Dvr.State.{
  Command, start, stop, frame, shutdown, Recorder, new, set_video_params, set_override_path,
  update_frame_rate, enqueue_frame, start_recording, stop_recording, request_shutdown,
}
use amldigital_fpv.Dvr.Writer.Callback.{files_opened, files_closed, muxes_opened, muxes_closed}
use amldigital_fpv.Dvr.Writer.Balance.{close_writer-Closes}
use amldigital_fpv.Dvr.Worker.{finish_recording, handle, take_command, work}
use amldigital_fpv.Dvr.Worker.Sound.{
  IsConsistent, finish_recording-IsConsistent, finish_recording-running,
}
use amldigital_fpv.Dvr.Worker.Invariant.{handle-IsConsistent}

pub record System : Type 0 where
  pub recorder : Recorder
  -- Whether the worker's thread still runs.
  pub alive : Bool

-- The worker has stopped only behind a shutdown: nothing is open and nothing recorded then.
abbrev pub IsOver : Bool → Recorder → Type 0
IsOver true s = Unit {0}
IsOver false s =
    (s.running ≡ false)
    × (s.recording ≡ false)
    × (files_opened s.history ≡ files_closed s.history)
    × (muxes_opened s.history ≡ muxes_closed s.history)

pub record IsSafe (sys : System) : Type 0 where
  pub consistent : IsConsistent sys.recorder
  pub over : IsOver sys.alive sys.recorder

module _ (floats : Floats) (env : Env) where
  open floats use {Double}

  -- One step: a call from another thread, or a turn of the worker while it lives.
  pub data Step : System → System → Type 0 where
    configures :
        (sys : System) (w h fps : ℕ) (codec : VideoCodec)
        → Step sys (record sys { recorder = set_video_params w h fps codec sys.recorder })
    overrides :
        (sys : System) (path : FilePath)
        → Step sys (record sys { recorder = set_override_path path sys.recorder })
    rates :
        (sys : System) (fps : Double)
        → Step sys (record sys { recorder = update_frame_rate floats fps sys.recorder })
    starts : (sys : System) → Step sys (record sys { recorder = start_recording sys.recorder })
    stops : (sys : System) → Step sys (record sys { recorder = stop_recording sys.recorder })
    frames :
        (sys : System) (f : Option Frame)
        → Step sys (record sys { recorder = enqueue_frame f sys.recorder })
    shuts_down : (sys : System) → Step sys (record sys { recorder = request_shutdown sys.recorder })
    works :
        (sys : System)
        → sys.alive ≡ true
        → Step sys (record {
          recorder = (work floats env sys.recorder).1;
          alive = (work floats env sys.recorder).0;
        })

  pub data Reach (s : System) : System → Type 0 where
    here : Reach s s
    next : {t u : System} → Reach s t → Step t u → Reach s u

  -- What a shutdown leaves.
  shutdown-IsOver : (s : Recorder) → IsConsistent s → IsOver false (handle floats env shutdown s)
  unfolding handle
  shutdown-IsOver s c =
      let t = record s { running = false } in
      let u = finish_recording-IsConsistent env t c.sound.ring c.sound.capacity (ground arith) in
      ground (
        arith,
        finish_recording-running env t (ground arith),
        close_writer-Closes env true (finish_recording env t) u.sound.balanced,
      )

  taken :
      (cmd : Command) (q : List Command) (s : Recorder)
      → IsConsistent s
      → IsConsistent (handle floats env cmd (record s { queue = q }))
  taken cmd q s c = (handle-IsConsistent floats env cmd (record s { queue = q }) (ground arith)).0

  -- Members that the invariant does not name.
  record SameCore (s s' : Recorder) : Type 0 where
    history : s'.history ≡ s.history
    ring : s'.ring_buffer ≡ s.ring_buffer
    warmup : s'.warmup_done ≡ s.warmup_done
    running : s'.running ≡ s.running
    recording : s'.recording ≡ s.recording
    writer_ready : s'.writer_ready ≡ s.writer_ready
    handles : (s'.file ≡ s.file) × (s'.mux ≡ s.mux) × (s'.writer ≡ s.writer)

  SameCore-IsSafe :
      (sys : System) (s' : Recorder)
      → SameCore sys.recorder s'
      → IsSafe sys
      → IsSafe (record sys { recorder = s' })
  SameCore-IsSafe sys s' e v = ground arith

  take_command-IsSafe :
      (q : List Command) (s : Recorder)
      → IsConsistent s
      → let (alive, s') = take_command floats env q s in
        IsSafe (record { recorder = s'; alive = alive })
  unfolding take_command
  take_command-IsSafe [] s c = record { consistent = c; over = tt }
  take_command-IsSafe (shutdown ∷ q) s c =
      let t = record s { queue = q } in
      let c' : IsConsistent t = ground arith in
      record {
        consistent = (handle-IsConsistent floats env shutdown t c').0;
        over = shutdown-IsOver t c';
      }
  take_command-IsSafe (start ∷ q) s c = record { consistent = taken start q s c; over = tt }
  take_command-IsSafe (stop ∷ q) s c = record { consistent = taken stop q s c; over = tt }
  take_command-IsSafe (frame f ∷ q) s c = record { consistent = taken (frame f) q s c; over = tt }

  Step-IsSafe : {s t : System} → Step s t → IsSafe s → IsSafe t
  unfolding set_video_params set_override_path update_frame_rate start_recording stop_recording
      enqueue_frame request_shutdown work
  Step-IsSafe (configures sys w h fps codec) v = SameCore-IsSafe sys _ (ground arith) v
  Step-IsSafe (overrides sys path) v = SameCore-IsSafe sys _ (ground arith) v
  Step-IsSafe (rates sys fps) v = SameCore-IsSafe sys _ (ground arith) v
  Step-IsSafe (starts sys) v = SameCore-IsSafe sys _ (ground arith) v
  Step-IsSafe (stops sys) v = SameCore-IsSafe sys _ (ground arith) v
  Step-IsSafe (frames sys f) v = SameCore-IsSafe sys _ (ground arith) v
  Step-IsSafe (shuts_down sys) v = SameCore-IsSafe sys _ (ground arith) v
  Step-IsSafe (works sys alive) v = take_command-IsSafe sys.recorder.queue sys.recorder v.consistent

  Reach-IsSafe : {s t : System} → IsSafe s → Reach s t → IsSafe t
  Reach-IsSafe v here = v
  Reach-IsSafe v (next r st) = Step-IsSafe st (Reach-IsSafe v r)

  init-IsSafe : (allocated : Bool) → IsSafe (record { recorder = new allocated; alive = true })
  unfolding new Ring.new
  init-IsSafe allocated = ground (arith, new-IsValid {A = Option Frame} none 120)

  -- In every state that a new recorder reaches, by calls from any thread and turns of the worker in
  -- any order and with any answers from outside, the invariant holds: among others, no file and no
  -- muxer is open but those of a ready writer, and frames wait only in a recording that has lost
  -- its writer. Once the worker has ended, nothing is open and nothing is recorded.
  pub Reach-new-IsSafe :
      {t : System} (allocated : Bool)
      → Reach (record { recorder = new allocated; alive = true }) t
      → IsSafe t
  Reach-new-IsSafe allocated r = Reach-IsSafe (init-IsSafe allocated) r
