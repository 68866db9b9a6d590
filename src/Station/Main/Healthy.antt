-- ===== src/Station/Main/Healthy.antt =====
-- A recording that goes well, in the whole program: frames that come, rounds of the decode thread and
-- turns of the recorder's worker, in any order.
pub mod Files
mod Samples
use amldigital_fpv.Prelude.{
  ℕ, ◌+◌, ◌-◌, ◌%◌, ◌^◌, ◌≡◌, refl, sym, subst, Bool, true, false, List, [], ◌∷◌, ◌++◌, append-nil,
  append_assoc, Option, none, some, arith,
}
use mathlib.Core.Option
use amldigital_fpv.Dvr.Worker.Sound.{IsConsistent}
use amldigital_fpv.Floats.{Floats}
use amldigital_fpv.Dvr.World.{Env, Frame}
use amldigital_fpv.Dvr.State.{Recorder, enqueue_frame, update_frame_rate}
use amldigital_fpv.Dvr.System.Ends.{turns}
use amldigital_fpv.Dvr.Phases.Consequences.{frame_commands}
use amldigital_fpv.Dvr.Recorded.{recorded}
use amldigital_fpv.Dvr.Healthy.Turns.{
  IsFed, IsTurn, stay-IsTurn, IsTurn-trans, IsTurn-recorded, enqueue_frame-IsTurn,
  update_frame_rate-IsTurn,
}
use amldigital_fpv.Dvr.Healthy.Worker.{work-IsTurn, work-alive}
use amldigital_fpv.Receiver.Stream.{Gst}
use amldigital_fpv.Station.Options.{CmdOptions}
use amldigital_fpv.Station.Control.{Act}
use amldigital_fpv.Station.Frames.{
  Flow, Happening, arrives, decodes, finishes, happen, video_callback, rate_window, count_in_window,
  window_rate, finish_decoding,
}
use amldigital_fpv.Station.Frames.Order.{arrived}
use amldigital_fpv.Station.Main.{Station, Move, flows, works, move, moves, start_station, work_on}
use amldigital_fpv.Station.Main.Recorded.{decodes-dvr}
use amldigital_fpv.Station.Main.Safe.{frames_of, program-IsRunning, IsSafeDvr, Reach-IsSafeDvr}

-- Where no message comes: what happens to the frames, and turns of the worker.
unfoldable pub silent_moves : List (Option Happening) → List Move
silent_moves [] = []
silent_moves (some h ∷ hs) = flows h ∷ silent_moves hs
silent_moves (none ∷ hs) = works ∷ silent_moves hs

-- The recorder, where there is one, has come from a given state, and these frames came.
abbrev IsTurnBy : Recorder → Option Recorder → List Frame → Type 0
IsTurnBy r none fs = ⊥
IsTurnBy r (some r') fs = IsTurn r r' fs

-- The calls of the frame callback and a turn of the worker.
enqueue_frame-IsTurnBy :
    (r : Recorder) (f : Frame) (o : Option Recorder) (fs : List Frame)
    → IsTurnBy r o fs
    → IsTurnBy r (Option.map (enqueue_frame (some f)) o) (fs ++ f ∷ [])
enqueue_frame-IsTurnBy r f none fs t = t
enqueue_frame-IsTurnBy r f (some r') fs t = IsTurn-trans t (enqueue_frame-IsTurn f r' t.fed)

IsTurn-nil : {r s u : Recorder} {fs : List Frame} → IsTurn r s fs → IsTurn s u [] → IsTurn r u fs
IsTurn-nil {r} {s} {u} {fs} first second =
    subst (λ l. IsTurn r u l) (append-nil fs) (IsTurn-trans first second)

module _ (floats : Floats) where
  open floats use {Double}

  update_frame_rate-IsTurnBy :
      (r : Recorder) (fps : Double) (o : Option Recorder) (fs : List Frame)
      → IsTurnBy r o fs
      → IsTurnBy r (Option.map (update_frame_rate floats fps) o) fs
  update_frame_rate-IsTurnBy r fps none fs t = t
  update_frame_rate-IsTurnBy r fps (some r') fs t =
      IsTurn-nil t (update_frame_rate-IsTurn floats fps r' t.fed)

  rate_window-IsTurnBy :
      (r : Recorder) (now_ms : ℕ) (f : Flow) (fs : List Frame)
      → IsTurnBy r f.dvr fs
      → IsTurnBy r (rate_window floats now_ms f).dvr fs
  unfolding rate_window count_in_window
  rate_window-IsTurnBy r now_ms f fs t =
      let fps =
        window_rate floats ((f.fps_window_frames + 1) % 2 ^ 32)
          ((now_ms + 2 ^ 64 - f.fps_window_start) % 2 ^ 64) in
      ground (arith, t, update_frame_rate-IsTurnBy r fps f.dvr fs t)

  happen-IsTurnBy :
      (r : Recorder) (h : Happening) (f : Flow) (fs : List Frame)
      → IsTurnBy r f.dvr fs
      → IsTurnBy r (happen floats h f).dvr (fs ++ arrived (h ∷ []))
  unfolding happen arrived video_callback
  happen-IsTurnBy r (arrives now_ms frame) f fs t =
      rate_window-IsTurnBy r now_ms _ (fs ++ frame ∷ []) (enqueue_frame-IsTurnBy r frame f.dvr fs t)
  happen-IsTurnBy r (decodes time_ms answer) f fs t =
      rw (decodes-dvr floats time_ms answer f, append-nil fs) t
  happen-IsTurnBy r finishes f fs t = unfold finish_decoding in rw (append-nil fs) t

module _ (floats : Floats) (env : Env) where
  work_on-IsTurnBy :
      (r : Recorder) (alive : Bool) (o : Option Recorder) (fs : List Frame)
      → alive ≡ true
      → IsTurnBy r o fs
      → let (alive', o') = work_on floats env 1 alive o in (alive' ≡ true) × IsTurnBy r o' fs
  unfolding work_on turns
  work_on-IsTurnBy r alive none fs on t = (on, t)
  work_on-IsTurnBy r false (some r') fs on t = absurd (ground (arith, on))
  work_on-IsTurnBy r true (some r') fs on t =
      (work-alive floats env r' t.fed, IsTurn-nil t (work-IsTurn floats env r' t.fed))

module _ (floats : Floats) (env : Env) (gst : Gst) (starts : List Act → Bool) where
  silent_moves-IsTurnBy :
      (r : Recorder) (hs : List (Option Happening)) (s : Station) (fs : List Frame)
      → s.worker ≡ true
      → IsTurnBy r s.program.dvr fs
      → IsTurnBy r
          (moves floats env starts (silent_moves hs) s).program.dvr
          (fs ++ frames_of (silent_moves hs))
  unfolding silent_moves moves move frames_of
  silent_moves-IsTurnBy r [] s fs on t = rw (append-nil fs) t
  silent_moves-IsTurnBy r (some h ∷ hs) s fs on t =
      subst (IsTurnBy r _) (append_assoc fs (arrived (h ∷ [])) (frames_of (silent_moves hs))) (
        silent_moves-IsTurnBy r hs (move floats env starts (flows h) s) (fs ++ arrived (h ∷ [])) on
          (happen-IsTurnBy floats r h (record s.flow { dvr = s.program.dvr }) fs t))
  silent_moves-IsTurnBy r (none ∷ hs) s fs on t =
      let turn = work_on-IsTurnBy floats env r s.worker s.program.dvr fs on t in
      silent_moves-IsTurnBy r hs (move floats env starts works s) fs turn.0 turn.1

  -- A recorder that was not shut down has its worker.
  pub running-worker :
      (alive : Bool) (r : Recorder) → IsSafeDvr alive (some r) → r.running ≡ true → alive ≡ true
  running-worker true r safe running = refl
  running-worker false r safe running = absurd (ground (arith, safe.0.over, running))

  -- A point of the run at which the recorder runs, its writer is ready and only frames wait.
  pub from_there :
      (allocated : Bool) (now_ms : ℕ) (o : CmdOptions) (ms : List Move)
      (hs : List (Option Happening)) (q : List Frame) (r r' : Recorder)
      → let s = moves floats env starts ms (start_station starts allocated now_ms o) in
        let t = moves floats env starts (silent_moves hs) s in
        s.program.dvr ≡ some r
        → r.running ≡ true
        → r.queue ≡ frame_commands q
        → t.program.dvr ≡ some r'
        → IsConsistent r × IsTurn r r' (frames_of (silent_moves hs))
  from_there allocated now_ms o ms hs q r r' was running queue is =
      let s = moves floats env starts ms (start_station starts allocated now_ms o) in
      let run = program-IsRunning floats env gst starts allocated now_ms o ms in
      let safe : IsSafeDvr s.worker (some r) =
        subst (IsSafeDvr s.worker) was
          (Reach-IsSafeDvr floats env gst starts allocated _ _ run.recorder) in
      let fed : IsFed r = record {
        consistent = safe.0.consistent;
        running = running;
        frames = (q, queue);
      } in
      let first : IsTurnBy r s.program.dvr [] =
        subst (λ d. IsTurnBy r d []) (sym was) (stay-IsTurn r fed) in
      let turn = silent_moves-IsTurnBy r hs s [] (running-worker s.worker r safe running) first in
      (safe.0.consistent, subst (λ d. IsTurnBy r d (frames_of (silent_moves hs))) is turn)

  -- In a program at any point of its run at which the recorder runs, its writer is ready and only
  -- frames wait for its worker: over any order of frames that come, rounds of the decode thread and
  -- turns of the worker, and whatever the world answers, where the writer is ready behind them too,
  -- no frame is lost. What the muxer was given, and then what waits for it, are those that there were
  -- and then all that came, each once and in the order in which they came.
  pub program-records_all :
      (allocated : Bool) (now_ms : ℕ) (o : CmdOptions) (ms : List Move)
      (hs : List (Option Happening)) (q : List Frame) (r r' : Recorder)
      → let s = moves floats env starts ms (start_station starts allocated now_ms o) in
        let t = moves floats env starts (silent_moves hs) s in
        s.program.dvr ≡ some r
        → r.running ≡ true
        → r.writer_ready ≡ true
        → r.queue ≡ frame_commands q
        → t.program.dvr ≡ some r'
        → r'.writer_ready ≡ true
        → recorded r' ≡ recorded r ++ frames_of (silent_moves hs)
  program-records_all allocated now_ms o ms hs q r r' was running before queue is behind =
      let (c, turn) = from_there allocated now_ms o ms hs q r r' was running queue is in
      IsTurn-recorded turn c before behind
