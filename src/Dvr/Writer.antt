-- ===== src/Dvr/Writer.antt =====
-- The MP4 writer of the recorder: `file_write_callback`, `open_writer`, `close_writer` and
-- `rotate_recording_file` of src/dvr_recorder.cpp. Each returns what the source returns beside the
-- new state. `pub` helpers are the source's stretches between two calls that may fail.
pub mod Callback
pub mod Balance
pub mod Size
use amldigital_fpv.Prelude.{
  ℕ, ◌+◌, ◌-◌, ◌*◌, ◌/◌, ◌%◌, ◌^◌, Bool, true, false, not, ◌&&◌, ◌||◌, ◌∷◌, Option, none, some, ltb,
  leb, ◌==◌, if◌then◌else◌, length,
}
use amldigital_fpv.Prelude.Int.{ℤ, pos, negsuc, to_signed}
use amldigital_fpv.Text.{is_empty}
use amldigital_fpv.Codec.{is_h265}
use amldigital_fpv.Dvr.World.{
  Bytes, FilePath, Handle, Status, status_ok, Muxing, done, callback, Effect, file_opened,
  file_refused, file_closed, file_seek, file_written, allocate, mux_opened, mux_refused, mux_closed,
  writer_init, writer_closed, Env,
}
use amldigital_fpv.Dvr.State.{Recorder}
use amldigital_fpv.Dvr.Paths.{resolve_target_file}

-- `kMaxFat32Size`
abbrev pub max_fat32_size : ℕ
max_fat32_size = 4 * 1024 * 1024 * 1024 - 64 * 1024

unfoldable pub log : Effect → Recorder → Recorder
log e s = record s { history = e ∷ s.history }

unfoldable pub clamp_positive : ℤ → ℕ
clamp_positive (pos n) = n
clamp_positive (negsuc n) = 0

-- The loop of `compare_exchange_weak` leaves the larger of the two: no other thread stores larger
-- values, and a spurious failure only repeats it.
unfoldable pub note_end : ℕ → Recorder → Recorder
note_end new_end s =
    let s' =
      if ltb s.current_file_bytes new_end then record s { current_file_bytes = new_end } else s in
    if leb max_fat32_size new_end then record s' { rotate_requested = true } else s'

-- From `fwrite` on. The end is a `uint64_t`.
unfoldable pub write_at : Env → Handle → ℕ → Bytes → Recorder → Bool × Recorder
unfolding log note_end
write_at env f offset buffer s =
    let written = env.fwrite s.history buffer in
    let s' = log (file_written f buffer written) s in
    if not (written == length buffer)
    then (false, s')
    else (true, note_end ((offset + written) % 2 ^ 64) s')

-- `fseek` takes a `long`. The result is whether 0 is returned, rather than -1.
unfoldable pub file_write_callback : Env → ℤ → Bytes → Recorder → Bool × Recorder
unfolding write_at clamp_positive
file_write_callback env offset buffer s = elim s.file [
  | none ↦ (false, s)
  | some f ↦
      let place = to_signed env.long_bits (clamp_positive offset) in
      let s' = log (file_seek f place) s in
      if not (env.fseek s.history place)
      then (false, s')
      else write_at env f (clamp_positive offset) buffer s'
]

-- A call of minimp4, with the callbacks that it makes.
unfoldable pub run_mux : Env → {A : Type 0} → Muxing A → Recorder → A × Recorder
run_mux env (done a) s = (a, s)
run_mux env (callback offset buffer go) s =
    let (ok, s') = file_write_callback env offset buffer s in run_mux env (go ok) s'

unfoldable pub mp4_close : Env → Handle → Recorder → Recorder
unfolding log
mp4_close env m s = log (mux_closed m) (run_mux env (env.mp4_close s.history m) s).1

unfoldable pub mp4_open : Env → Recorder → Option Handle × Recorder
unfolding log
mp4_open env s =
    let (opened, s') = run_mux env (env.mp4_open s.history) s in
    elim opened [ none ↦ (none, log mux_refused s') | some m ↦ (some m, log (mux_opened m) s') ]

unfoldable pub write_init : Env → Handle → Recorder → Status × Recorder
unfolding log
write_init env m s =
    run_mux env (env.mp4_write_init s.history m s.video_width s.video_height (is_h265 s.codec))
      (log (writer_init m) s)

-- `if (fps_hint > 0) frame_duration_ = max(1, 90000 / fps_hint)`
unfoldable pub hinted_duration : ℕ → ℕ → ℕ
hinted_duration fps_hint duration =
    if fps_hint == 0 then duration else let d = 90000 / fps_hint in if ltb d 1 then 1 else d

-- The end of `open_writer`, where everything has succeeded.
unfoldable pub finish_open : Bool → Handle → Recorder → Recorder
unfolding hinted_duration
finish_open mark_recording m s = record s {
  mux = some m;
  writer_ready = true;
  current_file_bytes = 0;
  rotate_requested = false;
  recording = mark_recording || s.recording;
  frame_duration = hinted_duration s.video_fps_hint s.frame_duration;
}

-- From `mp4_h26x_write_init` on.
unfoldable pub init_writer : Env → Bool → Handle → Handle → Recorder → Bool × Recorder
unfolding finish_open
init_writer env mark_recording f m s =
    let (status, s') = write_init env m s in
    elim status [
      | status_ok ↦ (true, finish_open mark_recording m s')
      | _ ↦ (false, log (file_closed f) (record (mp4_close env m s') { file = none }))
    ]

-- `if (!writer_) writer_ = malloc(…)`
unfoldable pub allocate_writer : Env → Recorder → Recorder
unfolding log
allocate_writer env s =
    if s.writer then s else log allocate (record s { writer = env.malloc s.history })

-- From the test of `writer_` on. Where there is no memory, `file_` keeps the closed file.
unfoldable pub prepare_writer : Env → Bool → Handle → Handle → Recorder → Bool × Recorder
prepare_writer env mark_recording f m s =
    let s' = allocate_writer env s in
    if not s'.writer
    then (false, log (file_closed f) (mp4_close env m s'))
    else init_writer env mark_recording f m s'

-- From `MP4E_open` on.
unfoldable pub open_mux : Env → Bool → Handle → Recorder → Bool × Recorder
open_mux env mark_recording f s =
    let (opened, s') = mp4_open env s in
    elim opened [
      | none ↦ (false, log (file_closed f) (record s' { file = none }))
      | some m ↦ prepare_writer env mark_recording f m s'
    ]

-- From `fopen` on.
unfoldable pub open_file : Env → Bool → FilePath → Recorder → Bool × Recorder
open_file env mark_recording path s = elim (env.fopen s.history path) [
  | none ↦ (false, log (file_refused path) s)
  | some f ↦ open_mux env mark_recording f (record (log (file_opened f) s) { file = some f })
]

unfoldable pub open_writer : Env → Bool → Recorder → Bool × Recorder
open_writer env mark_recording s =
    if s.writer_ready
    then (true, s)
    else if s.video_width == 0 || s.video_height == 0
    then (false, s)
    else let (path, s') = resolve_target_file env s in
      if is_empty path then (false, s') else open_file env mark_recording path s'

unfoldable pub close_mux : Env → Recorder → Recorder
close_mux env s = elim s.mux [ none ↦ s | some m ↦ record (mp4_close env m s) { mux = none } ]

unfoldable pub close_h26x : Recorder → Recorder
unfolding log
close_h26x s = if s.writer then log writer_closed s else s

unfoldable pub close_file : Recorder → Recorder
unfolding log
close_file s = elim s.file [ none ↦ s | some f ↦ record (log (file_closed f) s) { file = none } ]

unfoldable pub close_writer : Env → Bool → Recorder → Recorder
close_writer env clear_recording s =
    if not s.writer_ready
    then (if clear_recording then record s { recording = false } else s)
    else let s' = close_file (close_h26x (close_mux env (record s { writer_ready = false }))) in
      record s' {
        current_file_bytes = 0;
        rotate_requested = false;
        recording = not clear_recording && s'.recording;
      }

unfoldable pub rotate_recording_file : Env → Recorder → Bool × Recorder
rotate_recording_file env s =
    if not s.recording then (false, s) else open_writer env false (close_writer env false s)
