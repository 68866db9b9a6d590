-- ===== src/Station/Main/End.antt =====
-- The end of the program: what it leaves behind.
use amldigital_fpv.Prelude.{
  ℕ, suc, ◌+◌, ◌<◌, ◌≡◌, ◌∙◌, subst, Bool, true, false, List, [], length, Option, none, some, arith,
}
use mathlib.Core.Option
use mathlib.Core.List.{reverse}
use amldigital_fpv.Floats.{Floats}
use amldigital_fpv.Dvr.World.{Env}
use amldigital_fpv.Dvr.State.{Recorder, new, push_command, request_shutdown}
use amldigital_fpv.Dvr.System.{System, IsOver, Reach, next, shuts_down}
use amldigital_fpv.Dvr.System.Ends.{shutdown-ends, turns, turns-Reach}
use amldigital_fpv.Dvr.Protocol.{disk, closed}
use amldigital_fpv.Dvr.Protocol.Reached.{ended-closed}
use amldigital_fpv.Receiver.Stream.{Gst}
use amldigital_fpv.Receiver.Stream.Kept.{IsStopped, stop_receiving-IsStopped}
use amldigital_fpv.Station.Options.{CmdOptions}
use amldigital_fpv.Station.Called.{Called}
use amldigital_fpv.Station.Control.{Act, act, drop_audio, end_commands}
use amldigital_fpv.Station.Frames.{happen, happen_all, finish_decoding}
use amldigital_fpv.Station.Frames.Order.{IsDecoded, rounds, finish-IsDecoded}
use amldigital_fpv.Aml.Submit.{CodecWrite}
use amldigital_fpv.Aml.Submit.Stamps.{written}
use amldigital_fpv.Station.Main.Safe.{frames_of, program-IsRunning, program-passed}
use amldigital_fpv.Station.Main.{
  Station, perform, replay, new_receiver, start_station, Move, moves, work_on, stop_stream,
  stop_recorder, stop_commands, join_decoding, join_worker, end_program,
}

-- The worker has ended, left nothing open, and kept to the order of the calls to the last.
abbrev pub IsEnded : Bool → Option Recorder → Type 0
IsEnded alive none = ⊥
IsEnded alive (some r) = (alive ≡ false) × IsOver false r × (disk r.history ≡ closed)

module _ (floats : Floats) (env : Env) (gst : Gst) where
  -- What the receiver has been told: to stop, behind all that it was told before.
  end-stopped :
      (turns : List (ℕ × CodecWrite)) (n : ℕ) (s : Station)
      → replay gst (end_program floats env turns n s).program.acts new_receiver
        ≡ perform gst Act.stop_receiving (replay gst s.program.acts new_receiver)
  unfolding end_program join_worker join_decoding stop_recorder stop_commands stop_stream drop_audio
      end_commands act replay perform
  end-stopped turns n s = ground arith

  end-audio :
      (turns : List (ℕ × CodecWrite)) (n : ℕ) (s : Station)
      → (end_program floats env turns n s).program.audio ≡ false
  unfolding end_program join_worker join_decoding stop_recorder stop_commands stop_stream drop_audio
      end_commands act
  end-audio turns n s = ground arith

  end-flow :
      (turns : List (ℕ × CodecWrite)) (n : ℕ) (s : Station)
      → (end_program floats env turns n s).flow
        ≡ happen_all floats (rounds turns) (finish_decoding s.flow)
  unfolding end_program join_worker join_decoding stop_recorder stop_commands stop_stream drop_audio
      end_commands act
  end-flow turns n s = ground arith

  pub end-worker :
      (turns : List (ℕ × CodecWrite)) (n : ℕ) (s : Station)
      → let (alive, dvr) =
          work_on floats env n s.worker (Option.map request_shutdown s.program.dvr) in
        let t = end_program floats env turns n s in (t.worker ≡ alive) × (t.program.dvr ≡ dvr)
  unfolding end_program join_worker join_decoding stop_recorder stop_commands stop_stream drop_audio
      end_commands act
  end-worker turns n s = ground arith

  -- A running recorder is told to end, and ends behind all that waits.
  pub shutdown-IsEnded :
      (allocated alive : Bool) (r : Recorder)
      → r.running ≡ true
      → Reach floats env
          (record { recorder = new allocated; alive = true })
          (record { recorder = r; alive = alive })
      → let (alive', o) =
          work_on floats env (suc (length r.queue)) alive (some (request_shutdown r)) in
        IsEnded alive' o
  unfolding work_on
  shutdown-IsEnded allocated alive r running reach =
      let asked = next reach (shuts_down _) in
      let n = suc (length r.queue) in
      let (dead, over) =
        shutdown-ends floats env allocated r.queue [] asked
          (unfold request_shutdown push_command in ground arith) in
      let last = turns floats env n alive (request_shutdown r) in
      let behind = turns-Reach floats env n alive (request_shutdown r) asked in
      (
        dead,
        over,
        ended-closed floats env allocated last.recorder (
            subst
              (λ b.
                Reach floats env (record { recorder = new allocated; alive = true })
                  (record { recorder = last.recorder; alive = b }))
              dead behind),
      )

  -- The end of a program in which no control message comes any more, from any state that its run
  -- leads to while the decode thread runs and the recorder was not shut down: with so many rounds of
  -- the decode thread as frames wait and two more, and so many turns of the worker as commands wait
  -- and one more, both threads have ended. The receiver has neither a thread nor a pipeline nor its
  -- own socket any more, and has used them in order; every frame that came was submitted once and in
  -- its order, the worker left no file and no muxer open, its calls of them in order up to the last,
  -- and no audio receiver is left.
  pub program-ends :
      (starts : List Act → Bool) (allocated : Bool) (now_ms : ℕ) (o : CmdOptions) (ms : List Move)
      → (turns : List (ℕ × CodecWrite)) (r : Recorder)
      → let s = moves floats env starts ms (start_station starts allocated now_ms o) in
        s.flow.decoding ≡ true
        → s.program.dvr ≡ some r
        → r.running ≡ true
        → length s.flow.decode_queue + 1 < length turns
        → let t = end_program floats env turns (suc (length r.queue)) s in
          IsStopped (replay gst t.program.acts new_receiver)
          × IsDecoded floats t.flow
          × (reverse (written t.flow.decoder.calls) ≡ frames_of ms)
          × IsEnded t.worker t.program.dvr
          × (t.program.audio ≡ false)
  unfolding happen_all happen perform
  program-ends starts allocated now_ms o ms turns r decoding dvr running enough =
      let s = moves floats env starts ms (start_station starts allocated now_ms o) in
      let n = suc (length r.queue) in
      let run = program-IsRunning floats env gst starts allocated now_ms o ms in
      let (decoded, submitted) = finish-IsDecoded floats turns s.flow decoding enough in
      let fresh : System = record { recorder = new allocated; alive = true } in
      let reach = subst (λ d. Called floats env fresh s.worker d) dvr run.recorder in
      let ended = shutdown-IsEnded allocated s.worker r running reach in
      let (worker, recorder) = end-worker turns n s in
      (
        rw (end-stopped turns n s) (stop_receiving-IsStopped _ run.receiver),
        rw (end-flow turns n s) decoded,
        rw (end-flow turns n s)
            (submitted ∙ program-passed floats env gst starts allocated now_ms o ms),
        rw (worker, recorder, dvr) ended,
        end-audio turns n s,
      )
