-- ===== src/Dvr/Healthy.antt =====
-- A recording that goes well: frames that other threads give, and turns of the worker, in any order.
pub mod Turns
pub mod Worker
pub mod Finish
use amldigital_fpv.Prelude.{◌≡◌, true, List, [], ◌∷◌, ◌++◌, Option, none, some}
use amldigital_fpv.Dvr.Healthy.Turns.{
  IsFed, IsTurn, stay-IsTurn, IsTurn-trans, IsTurn-recorded, enqueue_frame-IsTurn,
}
use amldigital_fpv.Dvr.Healthy.Worker.{work-IsTurn}
use amldigital_fpv.Floats.{Floats}
use amldigital_fpv.Dvr.World.{Frame, Env}
use amldigital_fpv.Dvr.State.{Recorder, enqueue_frame}
use amldigital_fpv.Dvr.Worker.{work}
use amldigital_fpv.Dvr.Worker.Sound.{IsConsistent}
use amldigital_fpv.Dvr.Phases.Consequences.{frame_commands}
use amldigital_fpv.Dvr.Recorded.{recorded}

-- Frames that come, where one is given, and turns of the worker.
unfoldable pub given : List (Option Frame) → List Frame
given [] = []
given (none ∷ ts) = given ts
given (some f ∷ ts) = f ∷ given ts

module _ (floats : Floats) (env : Env) where
  unfoldable pub record_all : List (Option Frame) → Recorder → Recorder
  unfolding work
  record_all [] s = s
  record_all (some f ∷ ts) s = record_all ts (enqueue_frame (some f) s)
  record_all (none ∷ ts) s = record_all ts (work floats env s).1

  record_all-IsTurn :
      (ts : List (Option Frame)) (s : Recorder) → IsFed s → IsTurn s (record_all ts s) (given ts)
  unfolding record_all given
  record_all-IsTurn [] s fed = stay-IsTurn s fed
  record_all-IsTurn (some f ∷ ts) s fed =
      let turn = enqueue_frame-IsTurn f s fed in IsTurn-trans turn (record_all-IsTurn ts _ turn.fed)
  record_all-IsTurn (none ∷ ts) s fed =
      let turn = work-IsTurn floats env s fed in IsTurn-trans turn (record_all-IsTurn ts _ turn.fed)

  -- Frames that other threads give and turns of the worker, in any order, from a state of the
  -- invariant in which the recorder runs, its writer is ready and only frames wait: where the writer
  -- is ready behind them too, none of these frames is lost. What the muxer was given, and then what
  -- waits for it, are those that there were and then all that came, in the order in which they came.
  pub record_all-recorded :
      (ts : List (Option Frame)) (q : List Frame) (s : Recorder)
      → IsConsistent s
      → s.running ≡ true
      → s.writer_ready ≡ true
      → s.queue ≡ frame_commands q
      → (record_all ts s).writer_ready ≡ true
      → recorded (record_all ts s) ≡ recorded s ++ given ts
  record_all-recorded ts q s c running before queue behind =
      let fed : IsFed s = record { consistent = c; running = running; frames = (q, queue) } in
      IsTurn-recorded (record_all-IsTurn ts s fed) c before behind
