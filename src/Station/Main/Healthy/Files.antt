-- ===== src/Station/Main/Healthy/Files.antt =====
-- The end of a program in whose recording all goes well: every frame is given to the muxer.
use amldigital_fpv.Prelude.{
  ◌∙◌, ℕ, ap, ◌≡◌, subst, Bool, true, List, [], ◌++◌, suc, length, Option, none, some,
}
use mathlib.Core.Option
use mathlib.Core.List.{reverse}
use amldigital_fpv.Aml.Submit.{CodecWrite}
use amldigital_fpv.Dvr.Writer.Callback.{frames_written}
use amldigital_fpv.Dvr.Healthy.Finish.{shutdown-recorded}
use amldigital_fpv.Station.Main.End.{IsEnded, end-worker, shutdown-IsEnded}
use amldigital_fpv.Floats.{Floats}
use amldigital_fpv.Dvr.World.{Env, Frame}
use amldigital_fpv.Dvr.System.{System}
use amldigital_fpv.Station.Called.{Called}
use amldigital_fpv.Dvr.State.{Recorder, new, request_shutdown}
use amldigital_fpv.Dvr.System.Ends.{turns}
use amldigital_fpv.Dvr.Phases.Consequences.{frame_commands}
use amldigital_fpv.Dvr.Recorded.{recorded}
use amldigital_fpv.Receiver.Stream.{Gst}
use amldigital_fpv.Station.Options.{CmdOptions}
use amldigital_fpv.Station.Control.{Act}
use amldigital_fpv.Station.Frames.{Happening}
use amldigital_fpv.Station.Main.{Move, moves, start_station, work_on, end_program}
use amldigital_fpv.Station.Main.Safe.{
  frames_of, moves-IsRunning, program-IsRunning, Reach-IsSafeDvr,
}
use amldigital_fpv.Station.Main.Healthy.{silent_moves, running-worker, from_there}

-- The frames that the muxer was given, where there is a recorder.
unfoldable pub filed : Option Recorder → List Frame
filed none = []
filed (some r) = reverse (frames_written r.history)

module _ (floats : Floats) (env : Env) (gst : Gst) (starts : List Act → Bool) where
  -- A program at any point of its run at which the recorder runs, its writer is ready and only frames
  -- wait for its worker, and that ends behind any order of frames that come, rounds of the decode
  -- thread and turns of the worker: where the writer is ready once the worker has taken the frames
  -- that wait at the end, one more turn leaves a worker that has ended, with no file and no muxer
  -- open, its calls of them in order up to the last, and that has given the muxer all that it was
  -- given at that point, all that waited then, and all that came since, each once and in the order in
  -- which they came.
  pub program-files_all :
      (allocated : Bool) (now_ms : ℕ) (o : CmdOptions) (ms : List Move)
      (hs : List (Option Happening)) (rounds : List (ℕ × CodecWrite)) (q : List Frame)
      (r r' : Recorder)
      → let s = moves floats env starts ms (start_station starts allocated now_ms o) in
        let t = moves floats env starts (silent_moves hs) s in
        s.program.dvr ≡ some r
        → r.running ≡ true
        → r.writer_ready ≡ true
        → r.queue ≡ frame_commands q
        → t.program.dvr ≡ some r'
        → (turns floats env (length r'.queue) true (request_shutdown r')).recorder.writer_ready
          ≡ true
        → let e = end_program floats env rounds (suc (length r'.queue)) t in
          IsEnded e.worker e.program.dvr
          × (filed e.program.dvr ≡ recorded r ++ frames_of (silent_moves hs))
  unfolding filed work_on
  program-files_all allocated now_ms o ms hs rounds q r r' was running before queue is behind =
      let s = moves floats env starts ms (start_station starts allocated now_ms o) in
      let t = moves floats env starts (silent_moves hs) s in
      let n = suc (length r'.queue) in
      let (c, turn) =
        from_there floats env gst starts allocated now_ms o ms hs q r r' was running queue is in
      let fresh : System = record { recorder = new allocated; alive = true } in
      let run =
        moves-IsRunning floats env gst starts fresh (silent_moves hs) s
          (program-IsRunning floats env gst starts allocated now_ms o ms) in
      let reach : Called floats env fresh t.worker (some r') =
        subst (Called floats env fresh t.worker) is run.recorder in
      let alive : t.worker ≡ true =
        running-worker floats env gst starts t.worker r'
          (Reach-IsSafeDvr floats env gst starts allocated t.worker (some r') reach)
          turn.fed.running in
      let ended = shutdown-IsEnded floats env gst allocated t.worker r' turn.fed.running reach in
      let (worker, recorder) = end-worker floats env gst rounds n t in
      (
        rw (worker, recorder, is) ended,
        ap filed recorder
            ∙ ap (λ d. filed (work_on floats env n t.worker (Option.map request_shutdown d)).1) is
            ∙ ap (λ b. filed (work_on floats env n b (some (request_shutdown r'))).1) alive
            ∙ shutdown-recorded floats env turn c before behind,
      )
