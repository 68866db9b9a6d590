-- ===== src/Dvr/Recorded.antt =====
-- What a recorder has recorded and what still waits for it, over the calls of other threads and the
-- turns of its worker.
use amldigital_fpv.Prelude.{
  list_laws, ◌≡◌, refl, ap, ◌∙◌, Bool, true, false, List, [], ◌∷◌, ◌++◌, append_assoc, append-nil,
  Option, none, some, arith, Bool-cases, inl, inr,
}
use mathlib.Core.List.{Sublist, nil-sublist, reverse, reverse-cons, sublist-append_left}
use mathlib.Core.List.Sublist
use amldigital_fpv.Floats.{Floats}
use amldigital_fpv.Dvr.World.{Frame, Env}
use amldigital_fpv.Dvr.State.{
  Command, start, stop, frame, shutdown, Recorder, push_command, enqueue_frame, start_recording,
  stop_recording, update_frame_rate,
}
use amldigital_fpv.Dvr.Writer.Callback.{frames_written}
use amldigital_fpv.Dvr.Worker.{handle, take_command, work}
use amldigital_fpv.Dvr.Worker.Sound.{IsConsistent}
use amldigital_fpv.Dvr.Worker.Waiting.{handle-queue}
use amldigital_fpv.Dvr.Worker.Invariant.{written_after, handle-IsConsistent}
use amldigital_fpv.Dvr.Phases.Consequences.{carried, carried-cons}
use amldigital_fpv.Dvr.Phases.Refine.{emitted}

-- The frames that the muxer got, and behind them those that wait in the queue.
unfoldable pub recorded : Recorder → List Frame
recorded s = reverse (frames_written s.history) ++ carried s.queue

-- None without a recorder.
unfoldable pub recorded_by : Option Recorder → List Frame
recorded_by none = []
recorded_by (some r) = recorded r

emitted-sublist : (cmd : Command) (s : Recorder) → Sublist (emitted cmd s) (carried (cmd ∷ []))
unfolding carried
emitted-sublist start s = nil-sublist []
emitted-sublist stop s = nil-sublist []
emitted-sublist shutdown s = nil-sublist []
emitted-sublist (frame none) s = nil-sublist []
emitted-sublist (frame (some f)) s = elim (Bool-cases s.writer_ready) [
  | inl ready ↦ rw ready (Sublist.refl _)
  | inr lost ↦ rw lost (nil-sublist _)
]

reverse-written_after :
    (cmd : Command) (ready : Bool) (fs : List Frame)
    → reverse (written_after cmd ready fs) ≡ reverse fs ++ written_after cmd ready []
reverse-written_after start ready fs = simp list_laws
reverse-written_after stop ready fs = simp list_laws
reverse-written_after shutdown ready fs = simp list_laws
reverse-written_after (frame none) ready fs = simp list_laws
reverse-written_after (frame (some f)) true fs = reverse-cons f fs
reverse-written_after (frame (some f)) false fs = simp list_laws

carried-append : (cmds more : List Command) → carried (cmds ++ more) ≡ carried cmds ++ carried more
carried-append [] more = unfold carried in refl
carried-append (cmd ∷ cmds) more =
    simp
      (carried-cons cmd (cmds ++ more), carried-cons cmd cmds, carried-append cmds more, list_laws)

pub push_command-recorded :
    (cmd : Command) (s : Recorder)
    → recorded (push_command cmd s) ≡ recorded s ++ carried (cmd ∷ [])
unfolding recorded push_command
push_command-recorded cmd s = simp (carried-append s.queue (cmd ∷ []), list_laws)

-- The calls of other threads: a frame may be added, and nothing else.
pub start_recording-recorded : (s : Recorder) → recorded (start_recording s) ≡ recorded s
unfolding start_recording carried
start_recording-recorded s = ground (arith, push_command-recorded start s, append-nil (recorded s))

pub stop_recording-recorded : (s : Recorder) → recorded (stop_recording s) ≡ recorded s
unfolding stop_recording carried
stop_recording-recorded s = ground (arith, push_command-recorded stop s, append-nil (recorded s))

pub enqueue_frame-recorded :
    (f : Frame) (s : Recorder)
    → Sublist (recorded (enqueue_frame (some f) s)) (recorded s ++ f ∷ [])
unfolding enqueue_frame recorded
enqueue_frame-recorded f s = elim (Bool-cases s.running) [
  | inl runs ↦ elim (Bool-cases s.recording) [
    | inl records ↦
        rw (runs, records, push_command-recorded (frame (some f)) s)
          (unfold carried in Sublist.refl _)
    | inr idle ↦ rw (runs, idle) (sublist-append_left (recorded s) (f ∷ []))
  ]
  | inr over ↦ rw over (sublist-append_left (recorded s) (f ∷ []))
]

module _ (floats : Floats) where
  open floats use {Double}

  pub update_frame_rate-recorded :
      (fps : Double) (s : Recorder) → recorded (update_frame_rate floats fps s) ≡ recorded s
  unfolding update_frame_rate recorded
  update_frame_rate-recorded fps s = ground arith

  module _ (env : Env) where
    handle-recorded :
        (cmd : Command) (s : Recorder)
        → IsConsistent s
        → Sublist
            (recorded (handle floats env cmd s))
            (reverse (frames_written s.history) ++ carried (cmd ∷ s.queue))
    unfolding recorded
    handle-recorded cmd s c =
        let before = reverse (frames_written s.history) in
        let s' = handle floats env cmd s in
        let written : reverse (frames_written s'.history) ≡ before ++ emitted cmd s =
          ap reverse (handle-IsConsistent floats env cmd s c).1
          ∙ reverse-written_after cmd s.writer_ready (frames_written s.history) in
        rw
          (
            written,
            handle-queue floats env cmd s,
            carried-cons cmd s.queue,
            append_assoc before (emitted cmd s) (carried s.queue),
          )
          (Sublist.append (Sublist.refl before)
            (Sublist.append (emitted-sublist cmd s) (Sublist.refl _)))

    taken-recorded :
        (cmd : Command) (q : List Command) (s : Recorder)
        → IsConsistent s
        → Sublist
            (recorded (handle floats env cmd (record s { queue = q })))
            (reverse (frames_written s.history) ++ carried (cmd ∷ q))
    taken-recorded cmd q s c = handle-recorded cmd (record s { queue = q }) (ground arith)

    take_command-recorded :
        (q : List Command) (s : Recorder)
        → s.queue ≡ q
        → IsConsistent s
        → Sublist
            (recorded (take_command floats env q s).1)
            (reverse (frames_written s.history) ++ carried q)
    unfolding take_command recorded
    take_command-recorded [] s e c = rw e (Sublist.refl _)
    take_command-recorded (start ∷ q) s e c = taken-recorded start q s c
    take_command-recorded (stop ∷ q) s e c = taken-recorded stop q s c
    take_command-recorded (frame f ∷ q) s e c = taken-recorded (frame f) q s c
    take_command-recorded (shutdown ∷ q) s e c = taken-recorded shutdown q s c

    -- A turn of the worker may drop a frame, and neither adds nor reorders one.
    pub work-recorded :
        (s : Recorder) → IsConsistent s → Sublist (recorded (work floats env s).1) (recorded s)
    unfolding work recorded
    work-recorded s c = take_command-recorded s.queue s refl c
