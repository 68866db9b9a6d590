-- ===== src/Station/Main/Amid/Turns.antt =====
-- The worker's turns behind the shutdown, among all that the other threads do.
use amldigital_fpv.Prelude.{
  ℕ, suc, ◌<◌, ◌≡◌, Bool, true, false, List, [], ◌∷◌, length, Option, none, some, arith,
}
use mathlib.Core.Option
use amldigital_fpv.Floats.{Floats}
use amldigital_fpv.Dvr.World.{Env}
use amldigital_fpv.Dvr.State.{
  Recorder, request_shutdown, push_command, start_recording, stop_recording, enqueue_frame,
  update_frame_rate,
}
use amldigital_fpv.Dvr.System.Running.{Reach-new-running}
use amldigital_fpv.Dvr.State.{new}
use amldigital_fpv.Station.Called.{Called}
use amldigital_fpv.Station.Control.{Act, act, drop_audio, Event}
use amldigital_fpv.Station.Control.Recording.{on_event-keeps}
use amldigital_fpv.Station.Frames.{Happening}
use amldigital_fpv.Station.Frames.Recording.{happen-keeps}
use amldigital_fpv.Station.Ending.{
  Ending, over, waits, Ending-zero, Appends-Ending, start_recording-Appends, stop_recording-Appends,
  enqueue_frame-Appends, update_frame_rate-Appends, work-Ending,
}
use amldigital_fpv.Station.Main.{
  Station, Move, commands, flows, works, work_on, move, moves, stop_recorder,
}
use amldigital_fpv.Station.Main.Amid.{either}

-- The commands that wait for the worker.
unfoldable pub pending : Option Recorder → ℕ
pending none = 0
pending (some r) = length r.queue

-- The turns of the worker.
unfoldable pub turns_in : List Move → ℕ
turns_in [] = 0
turns_in (commands e ∷ ms) = turns_in ms
turns_in (flows h ∷ ms) = turns_in ms
turns_in (works ∷ ms) = suc (turns_in ms)

module _ (floats : Floats) (env : Env) (starts : List Act → Bool) where
  turn-Ending :
      {n : ℕ} (alive : Bool) (o : Option Recorder)
      → Ending (suc n) alive o
      → let (alive', o') = work_on floats env 1 alive o in Ending n alive' o'
  unfolding work_on
  turn-Ending false none over = over
  turn-Ending true none e = elim e [ ]
  turn-Ending alive (some r) e = work-Ending floats env alive r e

  -- Neither a message nor a frame takes the shutdown away.
  commands-Ending :
      {n : ℕ} (e : Event) (s : Station)
      → Ending n s.worker s.program.dvr
      → let s' = move floats env starts (commands e) s in Ending n s'.worker s'.program.dvr
  unfolding move
  commands-Ending {n} e s w =
      let after =
        on_event-keeps starts (Ending n s.worker)
          (λ o. Appends-Ending start_recording o start_recording-Appends)
          (λ o. Appends-Ending stop_recording o stop_recording-Appends) e s.program w in
      either {A = Station} (λ t. Ending n t.worker t.program.dvr) s.program.command_running after w

  flows-Ending :
      {n : ℕ} (h : Happening) (s : Station)
      → Ending n s.worker s.program.dvr
      → let s' = move floats env starts (flows h) s in Ending n s'.worker s'.program.dvr
  unfolding move
  flows-Ending {n} h s w =
      happen-keeps floats (Ending n s.worker)
        (λ f o. Appends-Ending (enqueue_frame f) o (enqueue_frame-Appends f))
        (λ fps o.
          Appends-Ending (update_frame_rate floats fps) o (update_frame_rate-Appends floats fps))
        h (record s.flow { dvr = s.program.dvr }) w

  -- With more turns of the worker than commands wait in front of the shutdown, it ends.
  pub moves-Ending :
      (ms : List Move) (s : Station)
      → Ending (turns_in ms) s.worker s.program.dvr
      → (moves floats env starts ms s).worker ≡ false
  unfolding moves turns_in move
  moves-Ending [] s e = Ending-zero e
  moves-Ending (commands e ∷ ms) s w = moves-Ending ms _ (commands-Ending e s w)
  moves-Ending (flows h ∷ ms) s w = moves-Ending ms _ (flows-Ending h s w)
  moves-Ending (works ∷ ms) s w = moves-Ending ms _ (turn-Ending s.worker s.program.dvr w)

  -- A shutdown that a recorder is told, whether or not its worker still runs.
  shutdown-Ending :
      (allocated : Bool) (n : ℕ) (alive : Bool) (o : Option Recorder)
      → Called floats env (record { recorder = new allocated; alive = true }) alive o
      → pending o < n
      → Ending n alive (Option.map request_shutdown o)
  unfolding pending
  shutdown-Ending allocated n alive none c few = elim c [ ]
  shutdown-Ending allocated n false (some r) c few = over
  shutdown-Ending allocated n true (some r) c few =
      let running = Reach-new-running floats env allocated c in
      waits {r = request_shutdown r} r.queue []
        (unfold request_shutdown push_command in ground (arith, running)) few

  pub stop_recorder-Ending :
      (allocated : Bool) (n : ℕ) (s : Station)
      → Called floats env (record { recorder = new allocated; alive = true }) s.worker s.program.dvr
      → pending s.program.dvr < n
      → let t = stop_recorder s in Ending n t.worker t.program.dvr
  unfolding stop_recorder drop_audio act
  stop_recorder-Ending allocated n s c few =
      let given = shutdown-Ending allocated n s.worker s.program.dvr c few in ground arith
