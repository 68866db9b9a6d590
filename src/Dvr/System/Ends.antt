-- ===== src/Dvr/System/Ends.antt =====
-- The end of the recorder: a shutdown that waits in the queue is reached, and leaves nothing open.
use amldigital_fpv.Prelude.{
  ℕ, zero, suc, ◌≡◌, refl, ◌∙◌, ap, subst, Bool, true, false, List, [], ◌∷◌, ◌++◌, length,
}
use amldigital_fpv.Floats.{Floats}
use amldigital_fpv.Dvr.World.{Env}
use amldigital_fpv.Dvr.State.{Command, start, stop, frame, shutdown, Recorder, new}
use amldigital_fpv.Dvr.Worker.{take_command, work}
use amldigital_fpv.Dvr.Worker.Waiting.{handle-queue}
use amldigital_fpv.Dvr.System.{System, IsOver, works, Reach, next, Reach-new-IsSafe}

module _ (floats : Floats) (env : Env) where
  -- So many turns of the worker, as long as its thread runs.
  unfoldable pub turns : ℕ → Bool → Recorder → System
  turns zero alive r = record { recorder = r; alive = alive }
  turns (suc n) false r = record { recorder = r; alive = false }
  turns (suc n) true r = turns n (work floats env r).0 (work floats env r).1

  pub turns-dead : (n : ℕ) (r : Recorder) → (turns n false r).alive ≡ false
  unfolding turns
  turns-dead zero r = refl
  turns-dead (suc n) r = refl

  pub turns-Reach :
      {s : System} (n : ℕ) (alive : Bool) (r : Recorder)
      → Reach floats env s (record { recorder = r; alive = alive })
      → Reach floats env s (turns n alive r)
  unfolding turns
  turns-Reach zero alive r h = h
  turns-Reach (suc n) false r h = h
  turns-Reach (suc n) true r h = turns-Reach n _ _ (next h (works _ refl))

  -- The command in front is taken from the queue, and the worker ends if it is a shutdown.
  pub take_command-queue :
      (cmd : Command) (q : List Command) (s : Recorder)
      → (take_command floats env (cmd ∷ q) s).1.queue ≡ q
  unfolding take_command
  take_command-queue start q s = handle-queue floats env start (record s { queue = q })
  take_command-queue stop q s = handle-queue floats env stop (record s { queue = q })
  take_command-queue (frame f) q s = handle-queue floats env (frame f) (record s { queue = q })
  take_command-queue shutdown q s = handle-queue floats env shutdown (record s { queue = q })

  turns-shutdown :
      (before after : List Command) (alive : Bool) (r : Recorder)
      → r.queue ≡ before ++ shutdown ∷ after
      → (turns (suc (length before)) alive r).alive ≡ false
  unfolding turns work take_command
  turns-shutdown before after false r q = refl
  turns-shutdown [] after true r q = ap (λ c. (take_command floats env c r).0) q
  turns-shutdown (cmd ∷ before) after true r q = turns-shutdown before after _ _ (
      ap (λ c. (take_command floats env c r).1.queue) q
      ∙ take_command-queue cmd (before ++ shutdown ∷ after) r)

  -- In every state that a new recorder reaches: where a shutdown waits in the queue, the worker has
  -- ended after as many turns as commands wait in front of it and one more; then nothing
  -- is recorded, and no file and no muxer is open.
  pub shutdown-ends :
      {t : System} (allocated : Bool) (before after : List Command)
      → Reach floats env (record { recorder = new allocated; alive = true }) t
      → t.recorder.queue ≡ before ++ shutdown ∷ after
      → let u = turns (suc (length before)) t.alive t.recorder in
        (u.alive ≡ false) × IsOver false u.recorder
  shutdown-ends {t} allocated before after r q =
      let ended = turns-shutdown before after t.alive t.recorder q in
      let safe =
        Reach-new-IsSafe floats env allocated
          (turns-Reach (suc (length before)) t.alive t.recorder r) in
      (
        ended,
        subst (λ b. IsOver b (turns (suc (length before)) t.alive t.recorder).recorder) ended
            safe.over,
      )
