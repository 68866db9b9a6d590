-- ===== src/Station/Main/Recorded.antt =====
-- From the frames that come to the file of the recording, over any order of what the threads do.
use amldigital_fpv.Prelude.{
  ℕ, ◌+◌, ◌-◌, ◌%◌, ◌^◌, ◌≡◌, ◌∙◌, refl, sym, subst, Bool, true, false, List, [], ◌∷◌, ◌++◌,
  append_assoc, append-nil, Option, none, some, arith,
}
use mathlib.Core.Option
use mathlib.Core.List.{Sublist, nil-sublist, sublist-append_left}
use mathlib.Core.List.Sublist
use amldigital_fpv.Floats.{Floats}
use amldigital_fpv.Dvr.World.{Env, Frame}
use amldigital_fpv.Dvr.State.{
  Recorder, new, start_recording, stop_recording, enqueue_frame, update_frame_rate,
  set_video_params, set_override_path,
}
use amldigital_fpv.Dvr.System.{System, Reach-new-IsSafe}
use amldigital_fpv.Dvr.System.Ends.{turns}
use amldigital_fpv.Dvr.Recorded.{
  recorded, recorded_by, start_recording-recorded, stop_recording-recorded, enqueue_frame-recorded,
  update_frame_rate-recorded, work-recorded,
}
use amldigital_fpv.Dvr.Phases.Consequences.{carried}
use amldigital_fpv.Aml.Submit.{CodecWrite}
use amldigital_fpv.Receiver.Stream.{Gst}
use amldigital_fpv.Station.Options.{CmdOptions, configure_recorder}
use amldigital_fpv.Station.Called.{Called}
use amldigital_fpv.Station.Control.{Act, Program, Event, on_event}
use amldigital_fpv.Station.Frames.{
  Flow, Happening, arrives, decodes, finishes, happen, video_callback, rate_window, count_in_window,
  window_rate, decode_round, take_frame, finish_decoding,
}
use amldigital_fpv.Station.Control.Recording.{on_event-keeps}
use amldigital_fpv.Station.Frames.Order.{arrived}
use amldigital_fpv.Station.Main.{
  Station, Move, commands, flows, works, work_on, move, moves, start_station,
}
use amldigital_fpv.Station.Main.Safe.{
  IsRunning, frames_of, frames_of-cons, start_program-dvr, start-IsRunning, move-IsRunning,
}

-- The calls that the threads make of the recorder, where there is one.
start_recording-recorded_by :
    (o : Option Recorder) → recorded_by (Option.map start_recording o) ≡ recorded_by o
unfolding recorded_by
start_recording-recorded_by none = refl
start_recording-recorded_by (some r) = start_recording-recorded r

stop_recording-recorded_by :
    (o : Option Recorder) → recorded_by (Option.map stop_recording o) ≡ recorded_by o
unfolding recorded_by
stop_recording-recorded_by none = refl
stop_recording-recorded_by (some r) = stop_recording-recorded r

enqueue_frame-recorded_by :
    (f : Frame) (o : Option Recorder)
    → Sublist (recorded_by (Option.map (enqueue_frame (some f)) o)) (recorded_by o ++ f ∷ [])
unfolding recorded_by
enqueue_frame-recorded_by f none = nil-sublist _
enqueue_frame-recorded_by f (some r) = enqueue_frame-recorded f r

-- No message adds a frame or takes one.
on_event-recorded :
    (starts : List Act → Bool) (e : Event) (p : Program)
    → recorded_by (on_event starts e p).dvr ≡ recorded_by p.dvr
on_event-recorded starts e p =
    on_event-keeps starts (λ o. recorded_by o ≡ recorded_by p.dvr)
      (λ o same. start_recording-recorded_by o ∙ same)
      (λ o same. stop_recording-recorded_by o ∙ same) e p refl

module _ (floats : Floats) where
  open floats use {Double}

  update_frame_rate-recorded_by :
      (fps : Double) (o : Option Recorder)
      → recorded_by (Option.map (update_frame_rate floats fps) o) ≡ recorded_by o
  unfolding recorded_by
  update_frame_rate-recorded_by fps none = refl
  update_frame_rate-recorded_by fps (some r) = update_frame_rate-recorded floats fps r

  rate_window-recorded :
      (now_ms : ℕ) (f : Flow) → recorded_by (rate_window floats now_ms f).dvr ≡ recorded_by f.dvr
  unfolding rate_window count_in_window
  rate_window-recorded now_ms f =
      let fps =
        window_rate floats ((f.fps_window_frames + 1) % 2 ^ 32)
          ((now_ms + 2 ^ 64 - f.fps_window_start) % 2 ^ 64) in
      ground (arith, update_frame_rate-recorded_by fps f.dvr)

  take_frame-dvr :
      (time_ms : ℕ) (answer : CodecWrite) (q : List (Option Frame)) (f : Flow)
      → (take_frame time_ms answer q f).dvr ≡ f.dvr
  unfolding take_frame
  take_frame-dvr time_ms answer [] f = refl
  take_frame-dvr time_ms answer (item ∷ rest) f = refl

  decode_round-dvr :
      (time_ms : ℕ) (answer : CodecWrite) (f : Flow) → (decode_round time_ms answer f).dvr ≡ f.dvr
  unfolding decode_round
  decode_round-dvr time_ms answer f = ground (arith, take_frame-dvr time_ms answer f.decode_queue f)

  pub decodes-dvr :
      (time_ms : ℕ) (answer : CodecWrite) (f : Flow)
      → (happen floats (decodes time_ms answer) f).dvr ≡ f.dvr
  unfolding happen
  decodes-dvr time_ms answer f = ground (arith, decode_round-dvr time_ms answer f)

  -- A frame that comes is offered; a round of the decode thread, or the end, changes nothing.
  happen-recorded :
      (h : Happening) (f : Flow)
      → Sublist (recorded_by (happen floats h f).dvr) (recorded_by f.dvr ++ arrived (h ∷ []))
  unfolding happen arrived video_callback
  happen-recorded (arrives now_ms frame) f =
      rw (rate_window-recorded now_ms _) (enqueue_frame-recorded_by frame f.dvr)
  happen-recorded (decodes time_ms answer) f =
      rw (decodes-dvr time_ms answer f) (sublist-append_left (recorded_by f.dvr) [])
  happen-recorded finishes f = unfold finish_decoding in sublist-append_left (recorded_by f.dvr) []

module _ (floats : Floats) (env : Env) where
  work_on-recorded :
      (allocated alive : Bool) (o : Option Recorder)
      → Called floats env (record { recorder = new allocated; alive = true }) alive o
      → Sublist (recorded_by (work_on floats env 1 alive o).1) (recorded_by o)
  unfolding work_on turns recorded_by
  work_on-recorded allocated alive none c = nil-sublist []
  work_on-recorded allocated false (some r) c = Sublist.refl _
  work_on-recorded allocated true (some r) c =
      work-recorded floats env r (Reach-new-IsSafe floats env allocated c).consistent

module _ (floats : Floats) (env : Env) (gst : Gst) (starts : List Act → Bool)
    (allocated : Bool) where
  abbrev fresh : System
  fresh = record { recorder = new allocated; alive = true }

  commands-recorded :
      (e : Event) (s : Station)
      → recorded_by (move floats env starts (commands e) s).program.dvr ≡ recorded_by s.program.dvr
  unfolding move
  commands-recorded e s = ground (arith, on_event-recorded starts e s.program)

  move-recorded :
      (m : Move) (s : Station)
      → IsRunning floats env gst fresh s
      → Sublist
          (recorded_by (move floats env starts m s).program.dvr)
          (recorded_by s.program.dvr ++ frames_of (m ∷ []))
  unfolding move frames_of
  move-recorded (commands e) s run =
      subst (λ l. Sublist l (recorded_by s.program.dvr ++ [])) (sym (commands-recorded e s))
        (sublist-append_left (recorded_by s.program.dvr) [])
  move-recorded (flows h) s run =
      rw (append-nil (arrived (h ∷ [])))
        (happen-recorded floats h (record s.flow { dvr = s.program.dvr }))
  move-recorded works s run =
      rw (append-nil (recorded_by s.program.dvr))
        (work_on-recorded floats env allocated s.worker s.program.dvr run.recorder)

  moves-recorded :
      (ms : List Move) (s : Station)
      → IsRunning floats env gst fresh s
      → Sublist
          (recorded_by (moves floats env starts ms s).program.dvr)
          (recorded_by s.program.dvr ++ frames_of ms)
  unfolding moves
  moves-recorded [] s run = sublist-append_left _ _
  moves-recorded (m ∷ ms) s run =
      let t = move floats env starts m s in
      Sublist.trans (moves-recorded ms t (move-IsRunning floats env gst starts fresh m s run)) (
        rw
          (
            frames_of-cons floats env gst starts m ms,
            sym (append_assoc (recorded_by s.program.dvr) (frames_of (m ∷ [])) (frames_of ms)),
          )
          (Sublist.append (move-recorded m s run) (Sublist.refl (frames_of ms))))

  start-recorded :
      (now_ms : ℕ) (o : CmdOptions)
      → recorded_by (start_station starts allocated now_ms o).program.dvr ≡ []
  unfolding start_station
  start-recorded now_ms o = rw (start_program-dvr floats env gst starts allocated o) (
      unfold recorded_by recorded configure_recorder set_video_params set_override_path new
        carried in
      ground arith)

  -- The program from its start on, with any options, over any order of control messages, frames,
  -- rounds of the decode thread and turns of the recorder's worker, and whatever the world answers:
  -- the frames that the muxer was given, and then those that wait for it, are some of the frames that
  -- came, each at most once for each time that it came, and in the order in which they came.
  pub program-records :
      (now_ms : ℕ) (o : CmdOptions) (ms : List Move)
      → let s = moves floats env starts ms (start_station starts allocated now_ms o) in
        Sublist (recorded_by s.program.dvr) (frames_of ms)
  program-records now_ms o ms =
      let s = start_station starts allocated now_ms o in
      subst
        (λ l. Sublist (recorded_by (moves floats env starts ms s).program.dvr) (l ++ frames_of ms))
        (start-recorded now_ms o)
        (moves-recorded ms s (start-IsRunning floats env gst starts allocated now_ms o))
