-- ===== src/Station/Main/Samples.antt =====
-- The program at concrete options and moves: a recording is asked for, and a frame comes.
use amldigital_fpv.Prelude.{
  Bool, arith, ℕ, suc, ◌≡◌, refl, true, false, List, [], ◌∷◌, ◌++◌, ◌<◌, length, some, take,
}
use mathlib.Core.List.{reverse, Sublist}
use amldigital_fpv.Text.{bytes, contains, starts_with, c_string, is_empty}
use amldigital_fpv.Dvr.State.{
  Recorder, new, start_recording, set_video_params, enqueue_frame, push_command,
}
use amldigital_fpv.Dvr.Samples.{whole, working}
use amldigital_fpv.Aml.Submit.{CodecWrite, wrote}
use amldigital_fpv.Aml.Submit.Stamps.{written}
use amldigital_fpv.Receiver.Samples.{no_sockets}
use amldigital_fpv.Receiver.Stream.Kept.{IsKept, IsStopped}
use amldigital_fpv.Station.Options.{default_options, configure_recorder}
use amldigital_fpv.Station.Control.{
  Act, datagram, on_event, on_datagram, dispatch, record_on, act, end_commands,
}
use amldigital_fpv.Station.Control.Wiring.{IsWired}
use amldigital_fpv.Station.Frames.{
  arrives, happen, video_callback, rate_window, is_recording, finish_decoding,
}
use amldigital_fpv.Station.Frames.Order.{arrived, IsDecoded, passed}
use amldigital_fpv.Station.Main.{
  Station, Move, commands, flows, works, move, moves, start_program, set_payloads, start_audio,
  start_station, replay, new_receiver, end_program, stop_commands, stop_stream,
}
use amldigital_fpv.Station.Main.Safe.{IsSafeDvr, frames_of, program-IsSafe}
use amldigital_fpv.Station.Main.Recorded.{program-records}
use amldigital_fpv.Dvr.Recorded.{recorded_by}
use amldigital_fpv.Station.Main.Amid.{end_amid}
use amldigital_fpv.Station.Main.Amid.Turns.{pending, turns_in}
use amldigital_fpv.Station.Main.Amid.Ends.{end_amid-ends}
use amldigital_fpv.Receiver.Stream.{Gst}
use amldigital_fpv.Station.Main.Amid.Alive.{IsSound, IsWilling, Runs}
use amldigital_fpv.Station.Main.Amid.Outlived.{end_amid-outlived}
use amldigital_fpv.Station.Main.End.{IsEnded, program-ends}

abbrev silent : List Act → Bool
silent acts = false

abbrev a_recording : List Move
a_recording = commands (datagram (bytes "record=1")) ∷ flows (arrives 40 (1 ∷ 2 ∷ [])) ∷ []

abbrev station : List Move → Station
station ms = moves whole working silent ms (start_station silent true 20 default_options)

program-IsSafe_example :
    let s = station (works ∷ a_recording) in
    IsSafeDvr s.worker s.program.dvr
    × IsKept (replay no_sockets s.program.acts new_receiver)
    × IsWired false s.program
    × (passed s.flow ≡ frames_of (works ∷ a_recording))
program-IsSafe_example =
    program-IsSafe whole working no_sockets silent true 20 default_options (works ∷ a_recording)

program-records_example :
    Sublist (recorded_by (station (works ∷ a_recording)).program.dvr) ((1 ∷ 2 ∷ []) ∷ [])
unfolding frames_of arrived
program-records_example =
    program-records whole working no_sockets silent true 20 default_options (works ∷ a_recording)

abbrev recorder : Recorder
recorder = start_recording (configure_recorder default_options (new true))

abbrev rounds_left : List (ℕ × CodecWrite)
rounds_left = (60, wrote 1) ∷ (61, wrote 0) ∷ (62, wrote 0) ∷ []

recorder-running : recorder.running ≡ true
unfolding start_recording configure_recorder is_empty set_video_params new
recorder-running = refl

station-state :
    let s = station a_recording in
    (s.flow.decoding ≡ true) × (s.program.dvr ≡ some recorder) × (length s.flow.decode_queue ≡ 1)
unfolding moves move happen video_callback rate_window is_recording start_station on_event
    on_datagram dispatch contains starts_with c_string record_on enqueue_frame start_recording
    configure_recorder is_empty set_video_params new start_program set_payloads start_audio act
    push_command
station-state = (refl, refl, refl)

program-ends_example :
    let t =
      end_program whole working rounds_left (suc (length recorder.queue)) (station a_recording) in
    IsStopped (replay no_sockets t.program.acts new_receiver)
    × IsDecoded whole t.flow
    × (reverse (written t.flow.decoder.calls) ≡ frames_of a_recording)
    × IsEnded t.worker t.program.dvr
    × (t.program.audio ≡ false)
program-ends_example =
    program-ends whole working no_sockets silent true 20 default_options a_recording rounds_left
      recorder station-state.0 station-state.1 recorder-running (omega (arith, station-state.2))

abbrev late : List Move
late = flows (arrives 80 (9 ∷ [])) ∷ []

abbrev two_turns : List Move
two_turns = works ∷ works ∷ []

late-few :
    pending
      (moves whole working silent [] (
        stop_commands
          (moves whole working silent late (stop_stream (station a_recording))))).program.dvr
    < turns_in two_turns
unfolding moves move happen video_callback rate_window is_recording start_station on_event
    on_datagram dispatch contains starts_with c_string record_on enqueue_frame start_recording
    configure_recorder is_empty set_video_params new start_program set_payloads start_audio act
    push_command stop_commands stop_stream end_commands finish_decoding pending turns_in
late-few = omega arith

end_amid-ends_example :
    let t = end_amid whole working silent late [] two_turns (station a_recording) in
    IsEnded t.worker t.program.dvr
    × (t.program.command_running ≡ false)
    × (t.program.audio ≡ false)
    × IsKept (replay no_sockets t.program.acts new_receiver)
    × (passed t.flow
        ≡ ((frames_of a_recording ++ frames_of late) ++ frames_of []) ++ frames_of two_turns)
end_amid-ends_example =
    end_amid-ends whole working no_sockets silent true 20 default_options a_recording late []
      two_turns late-few

abbrev willing : Gst
willing = record no_sockets { create_udp_socket = λ h. true }

willing-IsWilling : IsWilling willing
willing-IsWilling = record { launches = λ h. refl; sockets = λ h. refl; sources = λ h. refl }

sound_on-IsSound : IsSound (c_string (take 127 (bytes "sound=1")))
unfolding contains starts_with c_string
sound_on-IsSound = (refl, refl, refl)

station-listens :
    let s = stop_stream (station a_recording) in
    (moves whole working silent late s).program.command_running ≡ true
unfolding moves move happen video_callback rate_window is_recording start_station on_event
    on_datagram dispatch contains starts_with c_string record_on enqueue_frame start_recording
    configure_recorder is_empty set_video_params new start_program set_payloads start_audio act
    push_command stop_stream finish_decoding
station-listens = refl

end_amid-outlived_example :
    let s = station a_recording in
    let sound_late = late ++ commands (datagram (bytes "sound=1")) ∷ [] in
    let t = end_amid whole working silent sound_late [] two_turns s in
    IsStopped (replay willing (stop_stream s).program.acts new_receiver)
    × Runs (replay willing t.program.acts new_receiver)
    × (t.program.command_running ≡ false)
end_amid-outlived_example =
    end_amid-outlived whole working willing silent true 20 default_options (bytes "sound=1")
      a_recording late [] [] two_turns willing-IsWilling sound_on-IsSound station-listens
