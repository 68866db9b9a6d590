-- ===== src/Dvr/Healthy/Finish.antt =====
-- The end of a recording that goes well: what waits in front of the shutdown is written.
use amldigital_fpv.Prelude.{
  ℕ, zero, suc, ◌≡◌, refl, sym, ap, subst, ◌∙◌, Bool, true, false, List, [], ◌∷◌, ◌++◌, append-nil,
  some, length, arith,
}
use mathlib.Core.List.{reverse}
use amldigital_fpv.Floats.{Floats}
use amldigital_fpv.Dvr.World.{Frame, Env}
use amldigital_fpv.Dvr.State.{Command, frame, shutdown, Recorder, push_command, request_shutdown}
use amldigital_fpv.Dvr.Writer.Callback.{frames_written}
use amldigital_fpv.Dvr.Worker.{take_command, work}
use amldigital_fpv.Dvr.Worker.Sound.{IsConsistent}
use amldigital_fpv.Dvr.Worker.Waiting.{handle-queue}
use amldigital_fpv.Dvr.Worker.Invariant.{handle-IsConsistent}
use amldigital_fpv.Dvr.System.{System}
use amldigital_fpv.Dvr.System.Ends.{turns}
use amldigital_fpv.Dvr.Phases.Consequences.{carried, frame_commands}
use amldigital_fpv.Dvr.Recorded.{recorded, push_command-recorded}
use amldigital_fpv.Dvr.Healthy.Turns.{
  Holds, IsTurn, stay-Holds, same_phase-Holds, Holds-trans, Holds-recorded,
}
use amldigital_fpv.Dvr.Healthy.Worker.{frame-Holds}

-- The worker behind the frames that waited in front of other commands.
record IsThrough (s : Recorder) (rest : List Command) (u : System) : Type 0 where
  alive : u.alive ≡ true
  consistent : IsConsistent u.recorder
  queue : u.recorder.queue ≡ rest
  holds : Holds s u.recorder []

length-frame_commands : (q : List Frame) → length (frame_commands q) ≡ length q
unfolding frame_commands
length-frame_commands [] = refl
length-frame_commands (f ∷ q) = ap suc (length-frame_commands q)

module _ (floats : Floats) (env : Env) where
  turns-IsThrough :
      (q : List Frame) (rest : List Command) (s : Recorder)
      → s.queue ≡ frame_commands q ++ rest
      → IsConsistent s
      → IsThrough s rest (turns floats env (length q) true s)
  unfolding turns work take_command frame_commands
  turns-IsThrough [] rest s queue c = record {
    alive = refl;
    consistent = c;
    queue = queue;
    holds = stay-Holds s;
  }
  turns-IsThrough (f ∷ q) rest s queue c =
      let l = frame_commands q ++ rest in
      let t = record s { queue = l } in
      let c' = (handle-IsConsistent floats env (frame (some f)) t (ground (arith, c))).0 in
      let behind = turns-IsThrough q rest _ (handle-queue floats env (frame (some f)) t) c' in
      subst
        (λ k. IsThrough s rest (
          turns floats env (length q) (take_command floats env k s).0
            (take_command floats env k s).1))
        (sym queue)
        (record {
          alive = behind.alive;
          consistent = behind.consistent;
          queue = behind.queue;
          holds = Holds-trans (frame-Holds floats env f l s queue c) behind.holds;
        })

  -- The last turn by itself.
  turns-last :
      (n : ℕ) (alive : Bool) (r : Recorder)
      → let u = turns floats env n alive r in
        turns floats env (suc n) alive r ≡ turns floats env 1 u.alive u.recorder
  unfolding turns
  turns-last zero alive r = refl
  turns-last (suc n) false r = refl
  turns-last (suc n) true r = turns-last n _ _

  request_shutdown-recorded : (r : Recorder) → recorded (request_shutdown r) ≡ recorded r
  unfolding request_shutdown carried
  request_shutdown-recorded r =
      ground (arith, push_command-recorded shutdown r, append-nil (recorded r))

  -- The turn that takes the shutdown writes no frame.
  shutdown-writes :
      (s : Recorder)
      → s.queue ≡ shutdown ∷ []
      → IsConsistent s
      → reverse (frames_written (turns floats env 1 true s).recorder.history) ≡ recorded s
  unfolding turns work take_command recorded
  shutdown-writes s queue c =
      let t = record s { queue = [] } in
      ap (λ k. reverse (frames_written (take_command floats env k s).1.history)) queue
      ∙ ap reverse (handle-IsConsistent floats env shutdown t (ground (arith, c))).1
      ∙ sym (append-nil (reverse (frames_written s.history)))
      ∙ ap (λ l. reverse (frames_written s.history) ++ l) (sym (unfold carried in ap carried queue))

  request_shutdown-Holds : (r : Recorder) → Holds r (request_shutdown r) []
  request_shutdown-Holds r =
      same_phase-Holds r _ [] (unfold request_shutdown push_command in ground arith)
        (λ w. request_shutdown-recorded r ∙ sym (append-nil (recorded r)))

  -- A recorder that has come from one with a ready writer, and where only frames wait is told to end:
  -- where the writer is ready once the worker has taken these frames, one more turn ends a worker
  -- that has given the muxer all that was given before, all that waited, and all that came since.
  pub shutdown-recorded :
      {r s : Recorder} {fs : List Frame}
      → IsTurn r s fs
      → IsConsistent r
      → r.writer_ready ≡ true
      → (turns floats env (length s.queue) true (request_shutdown s)).recorder.writer_ready ≡ true
      → let u = turns floats env (suc (length s.queue)) true (request_shutdown s) in
        reverse (frames_written u.recorder.history) ≡ recorded r ++ fs
  shutdown-recorded {r} {s} {fs} turn c before behind =
      let (q, queue) = turn.fed.frames in
      let a = request_shutdown s in
      let asked : a.queue ≡ frame_commands q ++ shutdown ∷ [] =
        unfold request_shutdown push_command in ground (arith, turn.fed.running, queue) in
      let c' : IsConsistent a =
        unfold request_shutdown push_command in ground (arith, turn.fed.consistent) in
      let n = length s.queue in
      let through : IsThrough a (shutdown ∷ []) (turns floats env n true a) =
        subst (λ m. IsThrough a (shutdown ∷ []) (turns floats env m true a))
          (sym (ap length queue ∙ length-frame_commands q))
          (turns-IsThrough q (shutdown ∷ []) a asked c') in
      let u = turns floats env n true a in
      let holds = Holds-trans turn.holds (Holds-trans (request_shutdown-Holds s) through.holds) in
      ap (λ v. reverse (frames_written v.recorder.history)) (turns-last n true a)
      ∙ ap (λ b. reverse (frames_written (turns floats env 1 b u.recorder).recorder.history))
          through.alive
      ∙ shutdown-writes u.recorder through.queue through.consistent
      ∙ Holds-recorded holds c through.consistent before behind
      ∙ ap (λ l. recorded r ++ l) (append-nil fs)
