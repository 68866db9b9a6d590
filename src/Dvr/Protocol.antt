-- ===== src/Dvr/Protocol.antt =====
-- The order in which the recorder of src/dvr_recorder.cpp must use the file and minimp4: an automaton
-- over the calls that it has made.
pub mod Writer
pub mod Worker
pub mod Reached
mod Samples
use amldigital_fpv.Prelude.{◌≡◌, Bool, true, false, [], ◌∷◌, Option, some, ◌==◌, if◌then◌else◌}
use amldigital_fpv.Dvr.World.{
  Handle, Effect, read_clock, create_directories, file_opened, file_refused, file_closed, file_seek,
  file_written, allocate, mux_opened, mux_refused, mux_closed, writer_init, writer_closed,
  nal_written, History,
}
use amldigital_fpv.Dvr.State.{Recorder}

-- No file; a file; a file with a muxer; the muxer set up for frames; the file behind the end of its
-- muxer; and a call that does not fit, behind which nothing fits.
pub data Disk : Type 0 where
  closed : Disk
  opened : Handle → Disk
  muxing : Handle → Handle → Disk
  writing : Handle → Handle → Disk
  ended : Handle → Disk
  misused : Disk

-- One file at a time; a muxer on an open file; frames for a muxer that is set up; a seek and a write
-- on the open file, while its muxer has not ended; the end of the muxer, then of the writer, then of
-- the file, each by its own handle.
unfoldable pub after_effect : Effect → Disk → Disk
after_effect (file_opened f) closed = opened f
after_effect (mux_opened m) (opened f) = muxing f m
after_effect mux_refused (opened f) = opened f
after_effect (writer_init n) (muxing f m) = if n == m then writing f m else misused
after_effect (nal_written _ _ _) (writing f m) = writing f m
after_effect (file_seek g _) (opened f) = if g == f then opened f else misused
after_effect (file_seek g _) (muxing f m) = if g == f then muxing f m else misused
after_effect (file_seek g _) (writing f m) = if g == f then writing f m else misused
after_effect (file_written g _ _) (opened f) = if g == f then opened f else misused
after_effect (file_written g _ _) (muxing f m) = if g == f then muxing f m else misused
after_effect (file_written g _ _) (writing f m) = if g == f then writing f m else misused
after_effect (mux_closed n) (muxing f m) = if n == m then ended f else misused
after_effect (mux_closed n) (writing f m) = if n == m then ended f else misused
after_effect writer_closed (ended f) = ended f
after_effect (file_closed g) (opened f) = if g == f then closed else misused
after_effect (file_closed g) (ended f) = if g == f then closed else misused
after_effect (file_refused _) closed = closed
after_effect (create_directories _) closed = closed
after_effect allocate (muxing f m) = muxing f m
after_effect read_clock d = d
after_effect _ _ = misused

unfoldable pub disk : History → Disk
disk [] = closed
disk (e ∷ h) = after_effect e (disk h)

-- Between two calls of the recorder's own: the file and the muxer of a ready writer, set up for
-- frames, or nothing that is open.
abbrev pub Fits : Bool → Option Handle → Option Handle → Disk → Type 0
Fits true (some f) (some m) d = d ≡ writing f m
Fits true _ _ d = ⊥
Fits false _ _ d = d ≡ closed

abbrev pub IsInOrder : Recorder → Type 0
IsInOrder s = Fits s.writer_ready s.file s.mux (disk s.history)
