-- ===== src/Station/Main/Amid/Outlived.antt =====
-- The end of `main` in src/main.cpp, where a message of the sound comes between its steps.
use amldigital_fpv.Prelude.{
  ℕ, ◌≡◌, refl, ap, sym, subst, Bool, true, false, List, [], ◌∷◌, ◌++◌, take, if◌then◌else◌,
}
use amldigital_fpv.Text.{c_string}
use amldigital_fpv.Floats.{Floats}
use amldigital_fpv.Dvr.World.{Env}
use amldigital_fpv.Receiver.Stream.{Gst}
use amldigital_fpv.Station.Control.{Act, act, datagram, drop_audio, on_event, end_commands}
use amldigital_fpv.Station.Options.{CmdOptions}
use amldigital_fpv.Station.Main.{
  Station, perform, replay, new_receiver, Move, commands, flows, works, move, moves, stop_stream,
  stop_commands, stop_recorder, start_station,
}
use amldigital_fpv.Station.Main.Safe.{IsRunning, moves-IsRunning, program-IsRunning}
use amldigital_fpv.Station.Main.Amid.{end_amid, either, stop_stream-IsRunning}
use amldigital_fpv.Dvr.State.{new}
use amldigital_fpv.Dvr.System.{System}
use amldigital_fpv.Receiver.Stream.Kept.{IsStopped, stop_receiving-IsStopped}
use amldigital_fpv.Station.Main.Amid.Ends.{end_amid-alone}
use amldigital_fpv.Station.Main.Amid.Alive.{
  IsSound, IsWilling, Runs, IsAlive, on_event-IsAlive, sound-IsAlive,
}

module _ (floats : Floats) (env : Env) (gst : Gst) (starts : List Act → Bool) where
  moves-++ :
      (ms ms' : List Move) (s : Station)
      → moves floats env starts (ms ++ ms') s
        ≡ moves floats env starts ms' (moves floats env starts ms s)
  unfolding moves
  moves-++ [] ms' s = refl
  moves-++ (m ∷ ms) ms' s = moves-++ ms ms' (move floats env starts m s)

  module _ (w : IsWilling gst) where
    move-IsAlive :
        (m : Move) (s : Station)
        → IsAlive gst s.program
        → IsAlive gst (move floats env starts m s).program
    unfolding move
    move-IsAlive (commands e) s alive =
        either {A = Station} (λ t. IsAlive gst t.program) s.program.command_running
          (on_event-IsAlive gst starts w e s.program alive) alive
    move-IsAlive (flows h) s alive = alive
    move-IsAlive works s alive = alive

    moves-IsAlive :
        (ms : List Move) (s : Station)
        → IsAlive gst s.program
        → IsAlive gst (moves floats env starts ms s).program
    unfolding moves
    moves-IsAlive [] s alive = alive
    moves-IsAlive (m ∷ ms) s alive = moves-IsAlive ms _ (move-IsAlive m s alive)

    stop_commands-IsAlive :
        (s : Station) → IsAlive gst s.program → IsAlive gst (stop_commands s).program
    unfolding stop_commands end_commands act replay perform
    stop_commands-IsAlive s alive =
        either {A = Station} (λ t. IsAlive gst t.program) s.program.command_running alive alive

    stop_recorder-IsAlive :
        (s : Station) → IsAlive gst s.program → IsAlive gst (stop_recorder s).program
    unfolding stop_recorder drop_audio act replay perform
    stop_recorder-IsAlive s alive = either (IsAlive gst) s.program.audio alive alive

    message-IsAlive :
        (message : List ℕ) (s : Station)
        → s.program.receiver ≡ true
        → s.program.command_running ≡ true
        → IsSound (c_string (take 127 message))
        → IsAlive gst (move floats env starts (commands (datagram message)) s).program
    unfolding move on_event
    message-IsAlive message s here runs sound =
        let e = datagram message in
        let taken : move floats env starts (commands e) s
            ≡ record s { program = on_event starts e s.program } =
          ap (λ b. if b then record s { program = on_event starts e s.program } else s) runs in
        subst (λ t. IsAlive gst t.program) (sym taken)
          (sound-IsAlive gst starts w message s.program here sound)

    end-IsAlive :
        (ms_stream ms_commands ms_recorder : List Move) (s : Station)
        → IsAlive gst (moves floats env starts ms_stream (stop_stream s)).program
        → IsAlive gst (end_amid floats env starts ms_stream ms_commands ms_recorder s).program
    unfolding end_amid
    end-IsAlive ms_stream ms_commands ms_recorder s alive =
        let stopped = moves floats env starts ms_stream (stop_stream s) in
        let alone = moves floats env starts ms_commands (stop_commands stopped) in
        moves-IsAlive ms_recorder (stop_recorder alone) (
          stop_recorder-IsAlive alone (
            moves-IsAlive ms_commands (stop_commands stopped)
              (stop_commands-IsAlive stopped alive)))

  stop_stream-IsStopped :
      (first : System) (s : Station)
      → IsRunning floats env gst first s
      → IsStopped (replay gst (stop_stream s).program.acts new_receiver)
  unfolding stop_stream act replay perform
  stop_stream-IsStopped first s r = stop_receiving-IsStopped _ r.receiver

  -- The end of `main` does not keep the receiver stopped: in any state that the program's run leads
  -- to, the first step of the end stops the receiver, its pipeline and its threads; but where the
  -- control thread still takes a message `sound=1` or `sound=0` (with neither word of the recording
  -- in it), behind any other moves, then at the end, whatever else is done between the steps, there is
  -- a pipeline again and a thread pulls its frames, though the control thread has ended. It holds
  -- where GStreamer makes each pipeline with its source and there are sockets to be had.
  pub end_amid-outlived :
      (allocated : Bool) (now_ms : ℕ) (o : CmdOptions) (message : List ℕ)
      (ms before ms_stream ms_commands ms_recorder : List Move)
      → IsWilling gst
      → IsSound (c_string (take 127 message))
      → let s = moves floats env starts ms (start_station starts allocated now_ms o) in
        (moves floats env starts before (stop_stream s)).program.command_running ≡ true
        → let late = before ++ commands (datagram message) ∷ ms_stream in
          let t = end_amid floats env starts late ms_commands ms_recorder s in
          IsStopped (replay gst (stop_stream s).program.acts new_receiver)
          × Runs (replay gst t.program.acts new_receiver)
          × (t.program.command_running ≡ false)
  end_amid-outlived allocated now_ms o message ms before ms_stream ms_commands ms_recorder w sound
        runs =
      let first : System = record { recorder = new allocated; alive = true } in
      let s = moves floats env starts ms (start_station starts allocated now_ms o) in
      let late = before ++ commands (datagram message) ∷ ms_stream in
      let run = program-IsRunning floats env gst starts allocated now_ms o ms in
      let asked =
        moves-IsRunning floats env gst starts first before _
          (stop_stream-IsRunning floats env gst first s run) in
      let alive =
        subst (λ t. IsAlive gst t.program)
          (sym (moves-++ before (commands (datagram message) ∷ ms_stream) (stop_stream s)))
          (unfold moves in
            moves-IsAlive w ms_stream _
              (message-IsAlive w message _ asked.wired.present runs sound)) in
      (
        stop_stream-IsStopped first s run,
        (end-IsAlive w late ms_commands ms_recorder s alive).1,
        end_amid-alone floats env starts late ms_commands ms_recorder s,
      )
