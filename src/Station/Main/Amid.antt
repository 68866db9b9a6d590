-- ===== src/Station/Main/Amid.antt =====
-- The end of `main` of src/main.cpp while the other threads still run: messages come to the control
-- port, frames come, and the recorder's worker makes its turns between the steps of the end.
pub mod Turns
pub mod Ends
pub mod Alive
pub mod Outlived
use amldigital_fpv.Prelude.{Bool, true, false, List, arith, Bool-cases, inl, inr, if◌then◌else◌}
use mathlib.Core.Option
use amldigital_fpv.Floats.{Floats}
use amldigital_fpv.Dvr.World.{Env}
use amldigital_fpv.Dvr.System.{System}
use amldigital_fpv.Receiver.Stream.{Gst}
use amldigital_fpv.Receiver.Stream.Kept.{stop_receiving-IsStopped}
use amldigital_fpv.Station.Called.{request_shutdown-Called}
use amldigital_fpv.Station.Control.{Act, act, drop_audio, end_commands}
use amldigital_fpv.Station.Control.Wiring.{appsrc, payloads}
use amldigital_fpv.Station.Main.Safe.{IsRunning}
use amldigital_fpv.Station.Main.{
  Station, perform, replay, Move, moves, stop_stream, stop_recorder, stop_commands,
}

module _ (floats : Floats) (env : Env) (starts : List Act → Bool) where
  -- The end, with what the threads do behind each of its steps.
  unfoldable pub end_amid : List Move → List Move → List Move → Station → Station
  unfolding stop_stream stop_commands stop_recorder
  end_amid ms_stream ms_commands ms_recorder s =
      let stopped = moves floats env starts ms_stream (stop_stream s) in
      let alone = moves floats env starts ms_commands (stop_commands stopped) in
      moves floats env starts ms_recorder (stop_recorder alone)

pub either : {A : Type 0} (P : A → Type 0) (b : Bool) {s t : A} → P s → P t → P (if b then s else t)
either P true p q = p
either P false p q = q

module _ (floats : Floats) (env : Env) (gst : Gst) (first : System) where
  pub stop_stream-IsRunning :
      (s : Station)
      → IsRunning floats env gst first s
      → IsRunning floats env gst first (stop_stream s)
  unfolding stop_stream act replay perform
  stop_stream-IsRunning s r = record {
    recorder = r.recorder;
    wired = unfold appsrc payloads in ground (arith, r.wired);
    receiver = (stop_receiving-IsStopped _ r.receiver).kept;
  }

  end_commands-IsRunning :
      (s : Station)
      → IsRunning floats env gst first s
      → IsRunning floats env gst first (record s { program = end_commands s.program })
  unfolding end_commands act replay perform appsrc payloads
  end_commands-IsRunning s r = record {
    recorder = r.recorder;
    wired = ground (arith, r.wired);
    receiver = r.receiver;
  }

  pub stop_commands-IsRunning :
      (s : Station)
      → IsRunning floats env gst first s
      → IsRunning floats env gst first (stop_commands s)
  unfolding stop_commands
  stop_commands-IsRunning s r =
      either (IsRunning floats env gst first) s.program.command_running (end_commands-IsRunning s r)
        r

  pub stop_recorder-IsRunning :
      (s : Station)
      → IsRunning floats env gst first s
      → IsRunning floats env gst first (stop_recorder s)
  unfolding stop_recorder drop_audio act replay perform appsrc payloads
  stop_recorder-IsRunning s r =
      let shut = request_shutdown-Called floats env first s.worker s.program.dvr r.recorder in
      elim (Bool-cases s.program.audio) [
        | inl on ↦
            rw on
              (record { recorder = shut; wired = ground (arith, r.wired); receiver = r.receiver })
        | inr off ↦
            rw off
              (record { recorder = shut; wired = ground (arith, r.wired); receiver = r.receiver })
      ]
