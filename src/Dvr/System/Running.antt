-- ===== src/Dvr/System/Running.antt =====
-- `running_` and the worker's thread: the flag is cleared by the worker alone, when it ends.
use amldigital_fpv.Prelude.{◌≡◌, refl, ◌∙◌, Bool, true, List, [], ◌∷◌, arith}
use amldigital_fpv.Floats.{Floats}
use amldigital_fpv.Dvr.World.{Env}
use amldigital_fpv.Dvr.State.{
  Command, start, stop, frame, shutdown, Recorder, new, push_command, set_video_params,
  set_override_path, update_frame_rate, enqueue_frame, start_recording, stop_recording,
  request_shutdown,
}
use amldigital_fpv.Dvr.Worker.{take_command, work}
use amldigital_fpv.Dvr.Worker.Waiting.{handle-running}
use amldigital_fpv.Dvr.System.{
  System, Step, configures, overrides, rates, starts, stops, frames, shuts_down, works, Reach, here,
  next,
}

module _ (floats : Floats) (env : Env) where
  take_command-running :
      (q : List Command) (s : Recorder)
      → s.running ≡ true
      → let (alive, s') = take_command floats env q s in s'.running ≡ alive
  unfolding take_command
  take_command-running [] s r = r
  take_command-running (start ∷ q) s r = handle-running floats env start _ ∙ r
  take_command-running (stop ∷ q) s r = handle-running floats env stop _ ∙ r
  take_command-running (frame f ∷ q) s r = handle-running floats env (frame f) _ ∙ r
  take_command-running (shutdown ∷ q) s r = handle-running floats env shutdown _

  Step-running :
      {s t : System}
      → Step floats env s t
      → s.recorder.running ≡ s.alive
      → t.recorder.running ≡ t.alive
  unfolding set_video_params set_override_path update_frame_rate start_recording stop_recording
      enqueue_frame request_shutdown push_command work
  Step-running (configures sys w h fps codec) r = r
  Step-running (overrides sys path) r = r
  Step-running (rates sys fps) r = ground (arith, r)
  Step-running (starts sys) r = ground (arith, r)
  Step-running (stops sys) r = ground (arith, r)
  Step-running (frames sys f) r = ground (arith, r)
  Step-running (shuts_down sys) r = ground (arith, r)
  Step-running (works sys alive) r =
      take_command-running sys.recorder.queue sys.recorder (r ∙ alive)

  -- In every state that a new recorder reaches, `running_` is set exactly while the worker lives.
  pub Reach-new-running :
      (allocated : Bool) {t : System}
      → Reach floats env (record { recorder = new allocated; alive = true }) t
      → t.recorder.running ≡ t.alive
  unfolding new
  Reach-new-running allocated here = refl
  Reach-new-running allocated (next r st) = Step-running st (Reach-new-running allocated r)
