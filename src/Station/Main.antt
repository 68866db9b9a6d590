-- ===== src/Station/Main.antt =====
-- `main` of src/main.cpp: the start of the program, what goes on in its threads while it runs, and
-- its end. The receiver's methods are those of Receiver/Stream, in the order in which the threads
-- call them; the recorder is shared by the control messages, the frames and its own worker.
pub mod Receiving
pub mod Safe
pub mod Recorded
pub mod Healthy
pub mod End
pub mod Amid
mod Samples
use amldigital_fpv.Prelude.{
  ℕ, Bool, true, false, not, List, [], ◌∷◌, Option, none, some, if◌then◌else◌,
}
use mathlib.Core.Option
use amldigital_fpv.Prelude.Int.{pos, eqb_ℤ}
use amldigital_fpv.Floats.{Floats}
use amldigital_fpv.Dvr.World.{Env}
use amldigital_fpv.Dvr.State.{Recorder, new, request_shutdown}
use amldigital_fpv.Dvr.System.Ends.{turns}
use amldigital_fpv.Aml.Submit.{CodecWrite}
use amldigital_fpv.Receiver.Stream.{
  Gst, GstRtpReceiver, stop_receiving, start_receiving, set_udp_appsrc,
}
use amldigital_fpv.Station.Options.{CmdOptions, configure_recorder}
use amldigital_fpv.Station.Control.{
  Act, Program, Event, act, create_audio, drop_audio, on_event, end_commands,
}
use amldigital_fpv.Station.Control
use amldigital_fpv.Station.Frames.{Flow, Happening, happen, happen_all, finish_decoding}
use amldigital_fpv.Station.Frames.Order.{rounds}

-- The globals: those of the control messages, those of the frames, and whether the recorder's worker
-- runs. The recorder of the frames is that of the messages.
pub record Station : Type 0 where
  pub program : Program
  pub flow : Flow
  pub worker : Bool

-- One call of the receiver. `set_audio_payload_callback` touches nothing that is modelled of it.
unfoldable pub perform : Gst → Act → GstRtpReceiver → GstRtpReceiver
perform gst Act.stop_receiving r = stop_receiving r
perform gst (Act.set_udp_appsrc on) r = set_udp_appsrc on r
perform gst Act.start_receiving r = start_receiving gst r
perform gst _ r = r

-- The receiver behind the calls, the last of which stands in front.
unfoldable pub replay : Gst → List Act → GstRtpReceiver → GstRtpReceiver
unfolding perform
replay gst [] r = r
replay gst (a ∷ acts) r = perform gst a (replay gst acts r)

-- The members as the constructor on a port leaves them.
abbrev pub new_receiver : GstRtpReceiver
new_receiver = record {
  pipeline = false;
  pull_samples_run = false;
  pull_samples_thread = false;
  unix_socket = false;
  sock = false;
  udp_appsrc = false;
  read_socket_run = false;
  read_socket_thread = false;
  calls = [];
}

unfoldable pub start_audio : (List Act → Bool) → Bool → Program → Program
unfolding create_audio
start_audio starts enabled p =
    if enabled then create_audio starts (record p { audio_enabled = true }) else p

-- `if (g_opts.enable_audio) …`, where the callback is set.
unfoldable pub set_payloads : Bool → Program → Program
unfolding act
set_payloads enabled p = if enabled then act (Act.set_audio_payload_callback true) p else p

-- From the receiver on to the start of the control thread. `allocated` is whether the recorder's
-- constructor finds memory.
unfoldable pub start_program : (List Act → Bool) → Bool → CmdOptions → Program
unfolding act start_audio set_payloads
start_program starts allocated o =
    let enabled = not (eqb_ℤ o.enable_audio (pos 0)) in
    let created : Program = record {
      dvr = none;
      audio = false;
      audio_enabled = false;
      receiver = true;
      command_running = false;
      acts = [];
    } in
    let p = start_audio starts enabled (act (Act.set_udp_appsrc enabled) created) in
    let q = record p { dvr = some (configure_recorder o (new allocated)) } in
    record (act Act.start_receiving (set_payloads enabled q)) { command_running = true }

-- The window's time is that of the first frame; `now_ms` stands for it.
unfoldable pub start_station : (List Act → Bool) → Bool → ℕ → CmdOptions → Station
unfolding start_program
start_station starts allocated now_ms o =
    let p = start_program starts allocated o in
    record {
      program = p;
      flow = record {
        decode_queue = [];
        decoding_active = true;
        decoding = true;
        decoder = record { last_pts_us = 0; calls = [] };
        dvr = p.dvr;
        fps_window_start = now_ms;
        fps_window_frames = 0;
      };
      worker = true;
    }

-- What the threads do while the program runs: an event at the control port, a frame or a round of
-- the decode thread, and a turn of the recorder's worker.
pub data Move : Type 0 where
  commands : Event → Move
  flows : Happening → Move
  works : Move

-- So many turns of the worker, as long as it runs.
unfoldable pub work_on : Floats → Env → ℕ → Bool → Option Recorder → Bool × Option Recorder
work_on floats env n alive none = (alive, none)
work_on floats env n alive (some r) =
    let sys = turns floats env n alive r in (sys.alive, some sys.recorder)

module _ (floats : Floats) (env : Env) (starts : List Act → Bool) where
  unfoldable pub move : Move → Station → Station
  unfolding work_on
  move (commands e) s =
      if s.program.command_running then record s { program = on_event starts e s.program } else s
  move (flows h) s =
      let f = happen floats h (record s.flow { dvr = s.program.dvr }) in
      record s { program = record s.program { dvr = f.dvr }; flow = f }
  move works s =
      let (alive, dvr) = work_on floats env 1 s.worker s.program.dvr in
      record s { program = record s.program { dvr = dvr }; worker = alive }

  unfoldable pub moves : List Move → Station → Station
  moves [] s = s
  moves (m ∷ ms) s = moves ms (move m s)

-- The end, thread by thread: the receiver is stopped and the decode queue closed; then, where the
-- decode thread has ended, the control thread is told to end; and then, where that has ended too, the
-- recorder and the audio receiver.
unfoldable pub stop_stream : Station → Station
unfolding act finish_decoding
stop_stream s = record s {
  program = act Act.stop_receiving s.program;
  flow = finish_decoding s.flow;
}

unfoldable pub stop_recorder : Station → Station
unfolding drop_audio
stop_recorder s = record s {
  program = drop_audio (record s.program { dvr = Option.map request_shutdown s.program.dvr });
}

-- The joins: so many rounds of the decode thread, so many turns of the recorder's worker.
unfoldable pub join_decoding : Floats → List (ℕ × CodecWrite) → Station → Station
join_decoding floats turns s = record s { flow = happen_all floats (rounds turns) s.flow }

unfoldable pub join_worker : Floats → Env → ℕ → Station → Station
unfolding work_on
join_worker floats env n s =
    let (alive, dvr) = work_on floats env n s.worker s.program.dvr in
    record s { program = record s.program { dvr = dvr }; worker = alive }

-- The control thread sees the cleared flag, where it still runs.
unfoldable pub stop_commands : Station → Station
unfolding end_commands
stop_commands s =
    if s.program.command_running then record s { program = end_commands s.program } else s

-- The whole end of `main`, where no message comes meanwhile.
unfoldable pub end_program : Floats → Env → List (ℕ × CodecWrite) → ℕ → Station → Station
end_program floats env turns n s =
    join_worker floats env n
      (stop_recorder (stop_commands (join_decoding floats turns (stop_stream s))))
