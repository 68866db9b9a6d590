-- ===== src/Dvr/Protocol/Reached.antt =====
-- A recorder keeps to the order in every state that it reaches.
use amldigital_fpv.Prelude.{
  ◌≡◌, refl, Bool, true, false, [], ◌∷◌, none, some, arith, ap, ◌∙◌, ◌≢◌, ◌++◌, subst,
}
use amldigital_fpv.Floats.{Floats}
use amldigital_fpv.Dvr.World.{Env, Effect, History}
use amldigital_fpv.Dvr.State.{
  Recorder, new, push_command, set_video_params, set_override_path, update_frame_rate,
  enqueue_frame, start_recording, stop_recording, request_shutdown,
}
use amldigital_fpv.Dvr.Worker.{work}
use amldigital_fpv.Dvr.System.{
  Reach-new-IsSafe, System, Step, configures, overrides, rates, starts, stops, frames, shuts_down,
  works, Reach, here, next,
}
use amldigital_fpv.Dvr.Protocol.{closed, misused, after_effect, disk, IsInOrder}
use amldigital_fpv.Dvr.Protocol.Worker.{take_command-IsInOrder}

misused-stays : (e : Effect) → after_effect e misused ≡ misused
unfolding after_effect
misused-stays e = ground arith

-- Behind a call out of order nothing is in order again.
disk-earlier :
    (later earlier : History) → disk (later ++ earlier) ≢ misused → disk earlier ≢ misused
unfolding disk
disk-earlier [] earlier fits = fits
disk-earlier (e ∷ later) earlier fits =
    disk-earlier later earlier (λ wrong. fits (ap (after_effect e) wrong ∙ misused-stays e))

IsInOrder-disk : (s : Recorder) → IsInOrder s → disk s.history ≢ misused
IsInOrder-disk s o wrong = ground (arith, o, wrong)

module _ (floats : Floats) (env : Env) where
  Step-IsInOrder :
      {s t : System} → Step floats env s t → IsInOrder s.recorder → IsInOrder t.recorder
  unfolding set_video_params set_override_path update_frame_rate start_recording stop_recording
      enqueue_frame request_shutdown push_command work
  Step-IsInOrder (configures sys w h fps codec) o = o
  Step-IsInOrder (overrides sys path) o = o
  Step-IsInOrder (rates sys fps) o = ground (arith, o)
  Step-IsInOrder (starts sys) o = ground (arith, o)
  Step-IsInOrder (stops sys) o = ground (arith, o)
  Step-IsInOrder (frames sys none) o = o
  Step-IsInOrder (frames sys (some f)) o = ground (arith, o)
  Step-IsInOrder (shuts_down sys) o = ground (arith, o)
  Step-IsInOrder (works sys alive) o =
      take_command-IsInOrder floats env sys.recorder.queue sys.recorder o

  Reach-IsInOrder :
      (allocated : Bool) {t : System}
      → Reach floats env (record { recorder = new allocated; alive = true }) t
      → IsInOrder t.recorder
  unfolding new disk
  Reach-IsInOrder allocated here = refl
  Reach-IsInOrder allocated (next r st) = Step-IsInOrder st (Reach-IsInOrder allocated r)

  -- In every state that a new recorder reaches, by calls from any thread and turns of the worker in
  -- any order and with any answers from outside, its calls of the file and of minimp4 are in order:
  -- between two commands there is the file and the muxer of a ready writer, set up for frames, or
  -- nothing open; and no call so far was out of the order.
  pub Reach-new-IsInOrder :
      {t : System} (allocated : Bool) (later earlier : History)
      → Reach floats env (record { recorder = new allocated; alive = true }) t
      → t.recorder.history ≡ later ++ earlier
      → IsInOrder t.recorder × (disk earlier ≢ misused)
  Reach-new-IsInOrder {t} allocated later earlier r e =
      let o = Reach-IsInOrder allocated r in
      (
        o,
        disk-earlier later earlier (subst (λ h. disk h ≢ misused) e (IsInOrder-disk t.recorder o)),
      )

  -- Where the worker has ended, its last recording is ended in the order as well.
  pub ended-closed :
      (allocated : Bool) (r : Recorder)
      → Reach floats env
          (record { recorder = new allocated; alive = true })
          (record { recorder = r; alive = false })
      → disk r.history ≡ closed
  ended-closed allocated r reach =
      let safe = Reach-new-IsSafe floats env allocated reach in
      let o = Reach-IsInOrder allocated reach in ground (arith, safe, o)
