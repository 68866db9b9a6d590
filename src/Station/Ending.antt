-- ===== src/Station/Ending.antt =====
-- A shutdown that waits for the recorder's worker while other threads go on with their calls.
use amldigital_fpv.Prelude.{
  ℕ, suc, ◌<◌, ◌≡◌, refl, ◌∙◌, ap, Bool, true, false, List, [], ◌∷◌, ◌++◌, append_assoc, append-nil,
  length, Option, none, some, arith, ◌&&◌, Bool-cases, inl, inr, sym, subst,
}
use mathlib.Core.Option
use amldigital_fpv.Floats.{Floats}
use amldigital_fpv.Dvr.World.{Env, Frame}
use amldigital_fpv.Dvr.State.{
  Command, start, stop, frame, shutdown, Recorder, push_command, start_recording, stop_recording,
  enqueue_frame, update_frame_rate,
}
use amldigital_fpv.Dvr.Worker.{take_command, work}
use amldigital_fpv.Dvr.System.Ends.{turns, take_command-queue}

-- The worker has ended, or ends within so many turns: a shutdown waits behind fewer commands.
pub data Ending (n : ℕ) : Bool → Option Recorder → Type 0 where
  over : {o : Option Recorder} → Ending n false o
  waits :
      {alive : Bool} {r : Recorder} (before after : List Command)
      → r.queue ≡ before ++ shutdown ∷ after
      → length before < n
      → Ending n alive (some r)

pub Ending-zero : {alive : Bool} {o : Option Recorder} → Ending 0 alive o → alive ≡ false
Ending-zero over = refl
Ending-zero (waits before after q few) = absurd (omega arith)

-- A call that only adds commands behind those that wait.
abbrev pub Appends : (Recorder → Recorder) → Type 0
Appends f = (r : Recorder) → (more : List Command) × ((f r).queue ≡ r.queue ++ more)

pub start_recording-Appends : Appends start_recording
unfolding start_recording push_command
start_recording-Appends r = elim (Bool-cases r.running) [
  | inl on ↦ (start ∷ [], ground arith)
  | inr off ↦ ([], ground (arith, append-nil r.queue))
]

pub stop_recording-Appends : Appends stop_recording
unfolding stop_recording push_command
stop_recording-Appends r = elim (Bool-cases r.running) [
  | inl on ↦ (stop ∷ [], ground arith)
  | inr off ↦ ([], ground (arith, append-nil r.queue))
]

pub enqueue_frame-Appends : (f : Option Frame) → Appends (enqueue_frame f)
unfolding enqueue_frame push_command
enqueue_frame-Appends none r = ([], sym (append-nil r.queue))
enqueue_frame-Appends (some f) r = elim (Bool-cases (r.running && r.recording)) [
  | inl on ↦ (frame (some f) ∷ [], ground arith)
  | inr off ↦ ([], ground (arith, append-nil r.queue))
]

pub update_frame_rate-Appends :
    (floats : Floats) (fps : floats.Double) → Appends (update_frame_rate floats fps)
unfolding update_frame_rate
update_frame_rate-Appends floats fps r = ([], ground (arith, append-nil r.queue))

pub Appends-Ending :
    (f : Recorder → Recorder) {n : ℕ} {alive : Bool} (o : Option Recorder)
    → Appends f
    → Ending n alive o
    → Ending n alive (Option.map f o)
Appends-Ending f o adds over = over
Appends-Ending f (some r) adds (waits before after q few) =
    let (more, added) = adds r in
    waits before (after ++ more)
      (added ∙ ap (λ l. l ++ more) q ∙ append_assoc before (shutdown ∷ after) more) few

module _ (floats : Floats) (env : Env) where
  -- A turn of the worker takes a command.
  pub work-Ending :
      {n : ℕ} (alive : Bool) (r : Recorder)
      → Ending (suc n) alive (some r)
      → let sys = turns floats env 1 alive r in Ending n sys.alive (some sys.recorder)
  unfolding turns work take_command
  work-Ending false r e = over
  work-Ending {n} true r (waits [] after q few) =
      let ended = ap (λ c. (take_command floats env c r).0) q in
      subst (λ b. Ending n b (some (work floats env r).1)) (sym ended) over
  work-Ending true r (waits (cmd ∷ before) after q few) =
      waits before after
        (ap (λ c. (take_command floats env c r).1.queue) q
          ∙ take_command-queue floats env cmd (before ++ shutdown ∷ after) r)
        (omega arith)
