-- ===== src/Station/Main/Amid/Ends.antt =====
-- The end of the program amid all that its other threads still do: what it leaves behind.
use amldigital_fpv.Prelude.{
  ℕ, ◌<◌, ◌≡◌, refl, sym, ap, subst, ◌∙◌, Bool, true, false, List, [], ◌∷◌, ◌++◌, Option, none,
  some, arith, if◌then◌else◌,
}
use amldigital_fpv.Floats.{Floats}
use amldigital_fpv.Dvr.World.{Env}
use amldigital_fpv.Dvr.State.{Recorder, new}
use amldigital_fpv.Dvr.System.{System}
use amldigital_fpv.Receiver.Stream.{Gst}
use amldigital_fpv.Receiver.Stream.Kept.{IsKept}
use amldigital_fpv.Station.Options.{CmdOptions}
use amldigital_fpv.Station.Control.{on_event, Act, act, drop_audio, end_commands}
use amldigital_fpv.Station.Frames.Order.{passed, finish_decoding-passed}
use amldigital_fpv.Station.Main.Safe.{
  IsRunning, frames_of, moves-IsRunning, moves-passed, program-IsRunning, program-passed,
}
use amldigital_fpv.Station.Main.{
  Station, replay, new_receiver, start_station, Move, commands, flows, works, move, moves,
  stop_stream, stop_recorder, stop_commands,
}
use amldigital_fpv.Dvr.System.{Reach-new-IsSafe}
use amldigital_fpv.Dvr.Protocol.Reached.{ended-closed}
use amldigital_fpv.Station.Called.{Called}
use amldigital_fpv.Station.Main.End.{IsEnded}
use amldigital_fpv.Station.Main.Amid.{
  end_amid, stop_stream-IsRunning, stop_commands-IsRunning, stop_recorder-IsRunning,
}
use amldigital_fpv.Station.Main.Amid.Turns.{pending, turns_in, moves-Ending, stop_recorder-Ending}

module _ (floats : Floats) (env : Env) (starts : List Act → Bool) where
  -- Where the control thread has ended, nobody calls the receivers.
  moves-alone :
      (ms : List Move) (s : Station)
      → s.program.command_running ≡ false
      → let p = (moves floats env starts ms s).program in
        (p.command_running ≡ false) × (p.audio ≡ s.program.audio)
  unfolding moves move
  moves-alone [] s ended = (ended, refl)
  moves-alone (commands e ∷ ms) s ended =
      let still : move floats env starts (commands e) s ≡ s =
        ap (λ b. if b then record s { program = on_event starts e s.program } else s) ended in
      subst
        (λ t.
          let p = (moves floats env starts ms t).program in
          (p.command_running ≡ false) × (p.audio ≡ s.program.audio))
        (sym still) (moves-alone ms s ended)
  moves-alone (flows h ∷ ms) s ended = moves-alone ms _ ended
  moves-alone (works ∷ ms) s ended = moves-alone ms _ ended

stop_commands-alone : (s : Station) → (stop_commands s).program.command_running ≡ false
unfolding stop_commands end_commands
stop_commands-alone s = ground arith

stop_recorder-alone :
    (s : Station)
    → let p = (stop_recorder s).program in
      (p.command_running ≡ s.program.command_running) × (p.audio ≡ false)
unfolding stop_recorder drop_audio act
stop_recorder-alone s = ground arith

stop_commands-flow : (s : Station) → (stop_commands s).flow ≡ s.flow
unfolding stop_commands
stop_commands-flow s = ground arith

module _ (floats : Floats) (env : Env) (gst : Gst) (starts : List Act → Bool) where
  end_amid-passed :
      (ms_stream ms_commands ms_recorder : List Move) (s : Station)
      → passed (end_amid floats env starts ms_stream ms_commands ms_recorder s).flow
        ≡ ((passed s.flow ++ frames_of ms_stream) ++ frames_of ms_commands) ++ frames_of ms_recorder
  unfolding end_amid
  end_amid-passed ms_stream ms_commands ms_recorder s =
      let stopped = moves floats env starts ms_stream (stop_stream s) in
      let alone = moves floats env starts ms_commands (stop_commands stopped) in
      moves-passed floats env gst starts ms_recorder (stop_recorder alone)
      ∙ ap (λ l. l ++ frames_of ms_recorder)
          (unfold stop_recorder in
            moves-passed floats env gst starts ms_commands (stop_commands stopped)
            ∙ ap (λ f. passed f ++ frames_of ms_commands) (stop_commands-flow stopped)
            ∙ ap (λ l. l ++ frames_of ms_commands)
                (moves-passed floats env gst starts ms_stream (stop_stream s)
                  ∙ ap (λ l. l ++ frames_of ms_stream)
                      (unfold stop_stream in finish_decoding-passed floats s.flow)))

  alone-IsRunning :
      (first : System) (ms_stream ms_commands : List Move) (s : Station)
      → IsRunning floats env gst first s
      → let stopped = moves floats env starts ms_stream (stop_stream s) in
        IsRunning floats env gst first (moves floats env starts ms_commands (stop_commands stopped))
  alone-IsRunning first ms_stream ms_commands s r =
      let stopped =
        moves-IsRunning floats env gst starts first ms_stream _
          (stop_stream-IsRunning floats env gst first s r) in
      moves-IsRunning floats env gst starts first ms_commands _
        (stop_commands-IsRunning floats env gst first _ stopped)

-- The control thread has ended, whatever was done between the steps.
pub end_amid-alone :
    (floats : Floats) (env : Env) (starts : List Act → Bool)
    (ms_stream ms_commands ms_recorder : List Move) (s : Station)
    → (end_amid floats env starts ms_stream ms_commands ms_recorder s).program.command_running
      ≡ false
unfolding end_amid
end_amid-alone floats env starts ms_stream ms_commands ms_recorder s =
    let stopped = moves floats env starts ms_stream (stop_stream s) in
    let alone = moves floats env starts ms_commands (stop_commands stopped) in
    let quiet =
      moves-alone floats env starts ms_commands (stop_commands stopped)
        (stop_commands-alone stopped) in
    (moves-alone floats env starts ms_recorder (stop_recorder alone)
      ((stop_recorder-alone alone).0 ∙ quiet.0)).0

module _ (floats : Floats) (env : Env) where
  dead-IsEnded :
      (allocated alive : Bool) (o : Option Recorder)
      → Called floats env (record { recorder = new allocated; alive = true }) alive o
      → alive ≡ false
      → IsEnded alive o
  dead-IsEnded allocated alive none c dead = c
  dead-IsEnded allocated false (some r) c dead =
      (refl, (Reach-new-IsSafe floats env allocated c).over, ended-closed floats env allocated r c)
  dead-IsEnded allocated true (some r) c dead = absurd (ground (arith, dead))

module _ (floats : Floats) (env : Env) (gst : Gst) (starts : List Act → Bool) where
  -- The end of a program, from any state that its run leads to, while control messages, frames,
  -- rounds of the decode thread and turns of the recorder's worker go on between its steps in any
  -- order: with more turns of the worker behind the shutdown than commands waited for it, the worker
  -- has ended with no file and no muxer open, its calls of them in order up to the last. The control
  -- thread has ended, no audio receiver is left, the receiver has lost no socket and no thread and
  -- has used them in order, and every frame that came, during the end too, was submitted or waits for
  -- it, once and in its order.
  pub end_amid-ends :
      (allocated : Bool) (now_ms : ℕ) (o : CmdOptions)
      (ms ms_stream ms_commands ms_recorder : List Move)
      → let s = moves floats env starts ms (start_station starts allocated now_ms o) in
        let stopped = moves floats env starts ms_stream (stop_stream s) in
        let alone = moves floats env starts ms_commands (stop_commands stopped) in
        pending alone.program.dvr < turns_in ms_recorder
        → let t = end_amid floats env starts ms_stream ms_commands ms_recorder s in
          IsEnded t.worker t.program.dvr
          × (t.program.command_running ≡ false)
          × (t.program.audio ≡ false)
          × IsKept (replay gst t.program.acts new_receiver)
          × (passed t.flow
              ≡ ((frames_of ms ++ frames_of ms_stream) ++ frames_of ms_commands)
                ++ frames_of ms_recorder)
  unfolding end_amid
  end_amid-ends allocated now_ms o ms ms_stream ms_commands ms_recorder few =
      let first : System = record { recorder = new allocated; alive = true } in
      let s = moves floats env starts ms (start_station starts allocated now_ms o) in
      let stopped = moves floats env starts ms_stream (stop_stream s) in
      let alone = moves floats env starts ms_commands (stop_commands stopped) in
      let t = end_amid floats env starts ms_stream ms_commands ms_recorder s in
      let before =
        alone-IsRunning floats env gst starts first ms_stream ms_commands s
          (program-IsRunning floats env gst starts allocated now_ms o ms) in
      let run =
        moves-IsRunning floats env gst starts first ms_recorder _
          (stop_recorder-IsRunning floats env gst first alone before) in
      let dead = moves-Ending floats env starts ms_recorder (stop_recorder alone) (
        stop_recorder-Ending floats env starts allocated (turns_in ms_recorder) alone
          before.recorder few) in
      let quiet =
        moves-alone floats env starts ms_commands (stop_commands stopped)
          (stop_commands-alone stopped) in
      let asked = stop_recorder-alone alone in
      let still =
        moves-alone floats env starts ms_recorder (stop_recorder alone) (asked.0 ∙ quiet.0) in
      (
        dead-IsEnded floats env allocated t.worker t.program.dvr run.recorder dead,
        still.0,
        still.1 ∙ asked.1,
        run.receiver,
        end_amid-passed floats env gst starts ms_stream ms_commands ms_recorder s
            ∙ ap
                (λ l.
                  ((l ++ frames_of ms_stream) ++ frames_of ms_commands) ++ frames_of ms_recorder)
                (program-passed floats env gst starts allocated now_ms o ms),
      )
