-- ===== src/Dvr/Healthy/Worker.antt =====
-- A turn of the worker in a recording that goes well.
use amldigital_fpv.Prelude.{
  list_laws, ◌≡◌, ◌⊎◌, inl, inr, refl, sym, ap, subst, ◌∙◌, true, List, [], ◌∷◌, append-nil, some,
  arith,
}
use amldigital_fpv.Floats.{Floats}
use amldigital_fpv.Dvr.World.{Frame, Env}
use amldigital_fpv.Dvr.State.{Command, frame, Recorder}
use amldigital_fpv.Dvr.Writer.Callback.{frames_written}
use amldigital_fpv.Dvr.Worker.{handle, take_command, work}
use amldigital_fpv.Dvr.Worker.Sound.{IsConsistent}
use amldigital_fpv.Dvr.Worker.Waiting.{handle-queue, handle-running}
use amldigital_fpv.Dvr.Worker.Invariant.{written_after, handle-IsConsistent}
use amldigital_fpv.Dvr.Phases.{
  Phase, writing, phase, Goes, drops, counts, opens, cannot_open, writes, writes_last, loses_writer,
  buffers,
}
use amldigital_fpv.Dvr.Phases.Consequences.{carried, frame_commands}
use amldigital_fpv.Dvr.Phases.Refine.{emitted, handle-Goes}
use amldigital_fpv.Dvr.Recorded.{recorded}
use amldigital_fpv.Dvr.Healthy.Turns.{is_lost, Holds, IsFed, IsTurn, stay-IsTurn}

stays_lost :
    {p q : Phase} {f : Frame} {fs : List Frame}
    → Goes p (frame (some f)) q fs
    → is_lost p ≡ true
    → is_lost q ≡ true
stays_lost drops l = refl
stays_lost counts l = absurd (ground (arith, l))
stays_lost opens l = absurd (ground (arith, l))
stays_lost cannot_open l = refl
stays_lost writes l = absurd (ground (arith, l))
stays_lost writes_last l = refl
stays_lost loses_writer l = refl
stays_lost buffers l = refl

from_writing :
    {q : Phase} {f : Frame} {fs : List Frame}
    → Goes writing (frame (some f)) q fs
    → (q ≡ writing) ⊎ (is_lost q ≡ true)
from_writing writes = inl refl
from_writing writes_last = inr refl
from_writing loses_writer = inr refl

writing-ready : (s : Recorder) → phase s ≡ writing → s.writer_ready ≡ true
writing-ready s w = ground arith

module _ (floats : Floats) (env : Env) where
  frame-recorded :
      (f : Frame) (q : List Command) (s : Recorder)
      → s.queue ≡ frame (some f) ∷ q
      → IsConsistent s
      → phase s ≡ writing
      → recorded (handle floats env (frame (some f)) (record s { queue = q })) ≡ recorded s
  unfolding recorded
  frame-recorded f q s queue c w =
      let t = record s { queue = q } in
      let s' = handle floats env (frame (some f)) t in
      let before = frames_written s.history in
      let one : frames_written s'.history ≡ f ∷ before =
        (handle-IsConsistent floats env (frame (some f)) t (ground arith)).1
        ∙ ap (λ b. written_after (frame (some f)) b before) (writing-ready s w) in
      unfold carried in simp (one, handle-queue floats env (frame (some f)) t, queue, list_laws)

  -- A frame in front of any other commands.
  pub frame-Holds :
      (f : Frame) (q : List Command) (s : Recorder)
      → s.queue ≡ frame (some f) ∷ q
      → IsConsistent s
      → Holds s (handle floats env (frame (some f)) (record s { queue = q })) []
  frame-Holds f q s queue c =
      let t = record s { queue = q } in
      let goes = handle-Goes floats env (frame (some f)) t (ground (arith, c)) in
      let s' = handle floats env (frame (some f)) t in
      let goes_on : phase s ≡ writing → (phase s' ≡ writing) ⊎ (is_lost (phase s') ≡ true) = λ w.
        from_writing
          (subst (λ p. Goes p (frame (some f)) (phase s') (emitted (frame (some f)) t)) w goes) in
      record {
        lost = λ l. stays_lost goes l;
        healthy = λ w. elim (goes_on w) [
          | inl on ↦ inl (on, frame-recorded f q s queue c w ∙ sym (append-nil (recorded s)))
          | inr gone ↦ inr gone
        ];
      }

  take_command-IsTurn :
      (q : List Frame) (s : Recorder)
      → s.queue ≡ frame_commands q
      → IsFed s
      → IsTurn s (take_command floats env (frame_commands q) s).1 []
  unfolding frame_commands take_command
  take_command-IsTurn [] s queue fed = stay-IsTurn s fed
  take_command-IsTurn (f ∷ q) s queue fed =
      let t = record s { queue = frame_commands q } in
      let c : IsConsistent t = ground (arith, fed.consistent) in
      record {
        fed = record {
          consistent = (handle-IsConsistent floats env (frame (some f)) t c).0;
          running = handle-running floats env (frame (some f)) t ∙ fed.running;
          frames = (q, handle-queue floats env (frame (some f)) t);
        };
        holds = frame-Holds f (frame_commands q) s queue fed.consistent;
      }

  pub work-IsTurn : (s : Recorder) → IsFed s → IsTurn s (work floats env s).1 []
  unfolding work
  work-IsTurn s fed =
      let (q, queue) = fed.frames in
      subst (λ l. IsTurn s (take_command floats env l s).1 []) (sym queue)
        (take_command-IsTurn q s queue fed)

  take_command-alive :
      (q : List Frame) (s : Recorder) → (take_command floats env (frame_commands q) s).0 ≡ true
  unfolding frame_commands take_command
  take_command-alive [] s = refl
  take_command-alive (f ∷ q) s = refl

  -- Frames end no worker.
  pub work-alive : (s : Recorder) → IsFed s → (work floats env s).0 ≡ true
  unfolding work
  work-alive s fed =
      let (q, queue) = fed.frames in
      ap (λ l. (take_command floats env l s).0) queue ∙ take_command-alive q s
