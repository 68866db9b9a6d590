-- ===== src/Station/Main/Healthy/Samples.antt =====
-- A run of the program up to a ready writer, and two frames that come then.
use amldigital_fpv.Prelude.{
  suc, ◌+◌, ◌*◌, ◌≡◌, refl, Bool, true, false, List, [], ◌∷◌, ◌++◌, Option, none, some, length,
}
use amldigital_fpv.Text.{bytes}
use amldigital_fpv.Dvr.World.{Env, read_clock, file_opened, mux_opened, writer_init}
use amldigital_fpv.Dvr.State.{Recorder, enqueue_frame}
use amldigital_fpv.Dvr.Worker.{work}
use amldigital_fpv.Dvr.Recorded.{recorded}
use amldigital_fpv.Dvr.Phases.Consequences.{frame_commands}
use amldigital_fpv.Dvr.Samples.{whole, working, at_work}
use amldigital_fpv.Receiver.Samples.{no_sockets}
use amldigital_fpv.Station.Options.{CmdOptions, default_options}
use amldigital_fpv.Station.Control.{Act, datagram}
use amldigital_fpv.Station.Frames.{Happening, arrives}
use amldigital_fpv.Station.Frames.Order.{arrived}
use amldigital_fpv.Station.Main.{
  Station, Move, commands, flows, works, moves, start_station, end_program,
}
use amldigital_fpv.Station.Main.Safe.{frames_of}
use amldigital_fpv.Station.Main.End.{IsEnded}
use amldigital_fpv.Station.Main.Healthy.Files.{filed, program-files_all}
use amldigital_fpv.Station.Main.Healthy.{silent_moves, program-records_all}
use amldigital_fpv.Dvr.Paths.{extension, resolve_target_file}
use amldigital_fpv.Dvr.State.{
  new, set_override_path, set_video_params, start_recording, request_shutdown, push_command,
  update_frame_rate,
}
use amldigital_fpv.Dvr.System.Ends.{turns}
use amldigital_fpv.Dvr.Worker.{
  after_write, drain, finish_warmup, handle, may_write, on_frame, on_pop, on_start, record_frame,
  rotate_if_requested, stop_or_rotate, take_command, warm_up, warmup_rate, write_frame, write_nal,
}
use amldigital_fpv.Dvr.Writer.{
  allocate_writer, file_write_callback, init_writer, mp4_open, open_file, open_mux, open_writer,
  prepare_writer, run_mux, write_init,
}
use amldigital_fpv.Ring
use amldigital_fpv.Ring.{make_room, pop, push, store}
use amldigital_fpv.Station.Control.{dispatch, on_datagram, on_event, record_on}
use amldigital_fpv.Station.Frames.{
  count_in_window, happen, is_recording, rate_window, video_callback,
}
use amldigital_fpv.Station.Main.{move}
use amldigital_fpv.Station.Options.{configure_recorder}
use amldigital_fpv.Text.{c_string, contains, eq_bytes, is_empty}

-- Each look at the clock finds two seconds gone.
abbrev ticking : Env
ticking = record working { clock = λ h. 5 + 2000 * length h }

abbrev silent : List Act → Bool
silent acts = false

abbrev options : CmdOptions
options = record default_options { dvr_path = bytes "a.mp4" }

abbrev to_ready : List Move
to_ready =
    commands (datagram (bytes "record=1")) ∷ works ∷ flows (arrives 40 (1 ∷ 2 ∷ [])) ∷ works ∷ []

abbrev station : Station
station = moves whole ticking silent to_ready (start_station silent true 20 options)

-- What the recorder is then.
abbrev ready : Recorder
ready = record at_work {
  history = writer_init 9 ∷ mux_opened 9 ∷ file_opened 7 ∷ read_clock ∷ read_clock ∷ [];
  video_fps_hint = 120;
  frame_duration = 750;
  override_path = bytes "a.mp4";
}

abbrev two_more : List (Option Happening)
two_more = some (arrives 80 (9 ∷ [])) ∷ none ∷ some (arrives 90 (8 ∷ [])) ∷ []

abbrev behind : Recorder
behind = enqueue_frame (some (8 ∷ [])) (work whole ticking (enqueue_frame (some (9 ∷ [])) ready)).1

to_ready-recorder : station.program.dvr ≡ some ready
unfolding extension resolve_target_file eq_bytes is_empty contains c_string new configure_recorder
    record_on dispatch on_datagram on_event start_station move moves is_recording count_in_window
    rate_window video_callback happen set_video_params set_override_path update_frame_rate
    enqueue_frame start_recording run_mux mp4_open write_init init_writer allocate_writer
    prepare_writer open_mux open_file open_writer on_start warmup_rate finish_warmup warm_up
    on_frame handle take_command work turns Ring.new
to_ready-recorder = refl

behind-ready : behind.writer_ready ≡ true
unfolding make_room store push pop enqueue_frame file_write_callback run_mux write_nal
    rotate_if_requested stop_or_rotate after_write write_frame on_pop may_write drain record_frame
    on_frame handle take_command work
behind-ready = refl

two_more-recorder :
    (moves whole ticking silent (silent_moves two_more) station).program.dvr ≡ some behind
unfolding extension resolve_target_file eq_bytes is_empty contains c_string new make_room store push
    pop configure_recorder record_on dispatch on_datagram on_event start_station move moves
    is_recording count_in_window rate_window video_callback happen set_video_params
    set_override_path update_frame_rate enqueue_frame start_recording file_write_callback run_mux
    mp4_open write_init init_writer allocate_writer prepare_writer open_mux open_file open_writer
    on_start warmup_rate finish_warmup warm_up write_nal rotate_if_requested stop_or_rotate
    after_write write_frame on_pop may_write drain record_frame on_frame handle take_command work
    turns silent_moves Ring.new
two_more-recorder = refl

program-records_all_example : recorded behind ≡ recorded ready ++ (9 ∷ []) ∷ (8 ∷ []) ∷ []
unfolding silent_moves frames_of arrived
program-records_all_example =
    program-records_all whole ticking no_sockets silent true 20 options to_ready two_more [] ready
      behind to_ready-recorder refl refl (unfold frame_commands in refl) two_more-recorder
      behind-ready

-- The worker takes the frame that waits, and the shutdown behind it.
written_out :
    (turns whole ticking (length behind.queue) true (request_shutdown behind)).recorder.writer_ready
    ≡ true
unfolding make_room store push pop enqueue_frame file_write_callback run_mux write_nal
    rotate_if_requested stop_or_rotate after_write write_frame on_pop may_write drain record_frame
    on_frame handle take_command work turns request_shutdown push_command
written_out = refl

program-files_all_example :
    let t = moves whole ticking silent (silent_moves two_more) station in
    let e = end_program whole ticking [] (suc (length behind.queue)) t in
    IsEnded e.worker e.program.dvr
    × (filed e.program.dvr ≡ recorded ready ++ (9 ∷ []) ∷ (8 ∷ []) ∷ [])
unfolding silent_moves frames_of arrived
program-files_all_example =
    program-files_all whole ticking no_sockets silent true 20 options to_ready two_more [] [] ready
      behind to_ready-recorder refl refl (unfold frame_commands in refl) two_more-recorder
      written_out
