-- ===== src/Dvr/Phases.antt =====
-- What the recorder promises: a machine of four phases, with the frames that each command makes it
-- write. `DvrRecorder` of src/dvr_recorder.cpp has no such type; its flags say the phase.
pub mod Consequences
pub mod Steps
pub mod Refine
mod Samples
use amldigital_fpv.Prelude.{Bool, true, false, List, [], ◌∷◌, ◌++◌, none, some}
use amldigital_fpv.Dvr.World.{Frame}
use amldigital_fpv.Dvr.State.{Command, start, stop, frame, shutdown, Recorder}

-- No recording; a recording that measures its rate; one that writes; one that has lost its writer.
pub data Phase : Type 0 where
  idle warming writing stalled : Phase

-- By the flags `recording_`, `warmup_done_` and `writer_ready_`.
abbrev pub phase_of : Bool → Bool → Bool → Phase
phase_of false warm ready = idle
phase_of true false ready = warming
phase_of true true true = writing
phase_of true true false = stalled

abbrev pub phase : Recorder → Phase
phase s = phase_of s.recording s.warmup_done s.writer_ready

-- A phase, a command, the phase behind it, and the frames that are written. Where several steps are
-- there for a frame, the clock and the answers of the file system choose.
pub data Goes : Phase → Command → Phase → List Frame → Type 0 where
  begins : Goes idle start warming []
  goes_on_warming : Goes warming start warming []
  goes_on_writing : Goes writing start writing []
  goes_on_stalled : Goes stalled start stalled []
  stops : {p : Phase} → Goes p stop idle []
  ends : {p : Phase} → Goes p shutdown idle []
  skips : {p : Phase} → Goes p (frame none) p []
  drops : {f : Frame} → Goes idle (frame (some f)) idle []
  counts : {f : Frame} → Goes warming (frame (some f)) warming []
  opens : {f : Frame} → Goes warming (frame (some f)) writing []
  cannot_open : {f : Frame} → Goes warming (frame (some f)) idle []
  writes : {f : Frame} → Goes writing (frame (some f)) writing (f ∷ [])
  writes_last : {f : Frame} → Goes writing (frame (some f)) idle (f ∷ [])
  loses_writer : {f : Frame} → Goes writing (frame (some f)) stalled (f ∷ [])
  buffers : {f : Frame} → Goes stalled (frame (some f)) stalled []

-- A run of the machine, with all the frames that it writes, in their order.
pub data Runs : Phase → List Command → Phase → List Frame → Type 0 where
  over : {p : Phase} → Runs p [] p []
  more :
      {p q r : Phase} {cmd : Command} {cmds : List Command} {fs gs : List Frame}
      → Goes p cmd q fs
      → Runs q cmds r gs
      → Runs p (cmd ∷ cmds) r (fs ++ gs)
