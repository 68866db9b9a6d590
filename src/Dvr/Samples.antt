-- ===== src/Dvr/Samples.antt =====
-- Environments, a recorder at work, and the recorder's theorems at them.
use amldigital_fpv.Prelude.{
  ℕ, ◌+◌, ◌*◌, ◌/◌, ◌≡◌, ◌≢◌, refl, Bool, true, false, List, [], ◌∷◌, Option, none, some, arith,
  leb, ◌==◌, length, All, replicate,
}
use mathlib.Core.List.{reverse}
use amldigital_fpv.Prelude.Int.{ℤ, pos, negsuc}
use amldigital_fpv.Text.{bytes, eq_bytes, is_empty}
use amldigital_fpv.Text.Decimal.{int_max, leading_digits, stoi, show, pad}
use amldigital_fpv.Codec.{h265}
use amldigital_fpv.Floats.{Floats}
use amldigital_fpv.Dvr.World.{
  Frame, Entry, Env, done, callback, status_ok, failure, file_opened, mux_opened,
}
use amldigital_fpv.Dvr.State.{start, frame, Recorder, new, start_recording}
use amldigital_fpv.Dvr.Paths.{incremental_name, max_index_from, entry_index, extension, stem}
use amldigital_fpv.Dvr.Paths.Fresh.{IsFree, incremental_name-IsFree}
use amldigital_fpv.Dvr.Writer.{run_mux, open_writer, file_write_callback}
use amldigital_fpv.Dvr.Writer.Callback.{frames_written}
use amldigital_fpv.Dvr.Writer.Balance.{Opens, open_writer-Opens}
use amldigital_fpv.Dvr.Writer.Size.{RefusesNegative, file_write_callback-size, callback-beyond_long}
use amldigital_fpv.Ring.{Ring}
use amldigital_fpv.Ring
use amldigital_fpv.Dvr.Worker.{handle, outcome, write_frame, drain}
use amldigital_fpv.Dvr.Worker.Rounds.{IsDrained, drain-ready}
use amldigital_fpv.Dvr.Worker.Sound.{IsConsistent}
use amldigital_fpv.Dvr.Worker.Failures.{
  AlwaysFails, NeverFails, handle_frames, failing_writes_go_on, stale_stop_ends_recording,
  stalled_recording,
}
use amldigital_fpv.Dvr.System.{System, starts, here, next, IsSafe, Reach-new-IsSafe}

-- Whole numbers, where the program has doubles.
abbrev pub whole : Floats
whole = record {
  Double = ℕ;
  of_ℕ = λ n. n;
  neg = λ n. n;
  add = λ a b. a + b;
  mul = λ a b. a * b;
  div = λ a b. a / b;
  ceil = λ a. a;
  le = leb;
  eq = λ a b. a == b;
  to_uint32 = λ a. a;
  to_uint64 = λ a. a;
}

abbrev forwards : ℤ → Bool
forwards (pos n) = true
forwards (negsuc n) = false

-- Everything succeeds, and each frame is one write.
abbrev pub working : Env
working = record {
  long_bits = 31;
  clock = λ h. 5;
  exists = λ h p. true;
  entries = λ h p. [];
  makes_directories = λ h p. true;
  fopen = λ h p. some 7;
  fseek = λ h z. forwards z;
  fwrite = λ h b. length b;
  malloc = λ h. true;
  mp4_open = λ h. done (some 9);
  mp4_close = λ h m. callback (pos 0) (1 ∷ 2 ∷ []) (λ ok. done tt);
  mp4_write_init = λ h m w v hevc. done status_ok;
  mp4_write_nal = λ h f d. callback (pos 2) f (λ ok. done status_ok);
}

-- The disk is full: each frame is tried and not taken.
abbrev pub full_disk : Env
full_disk = record working {
  fwrite = λ h b. 0;
  mp4_write_nal = λ h f d. callback (pos 2) f (λ ok. done failure);
}

abbrev pub at_work : Recorder
at_work = record {
  history = mux_opened 9 ∷ file_opened 7 ∷ [];
  queue = [];
  ring_buffer = record { capacity = 120; buffer = replicate 120 none; head = 0; size = 0 };
  warmup_done = true;
  warmup_start_ms = 0;
  warmup_frame_count = 0;
  running = true;
  video_width = 1920;
  video_height = 1080;
  video_fps_hint = 60;
  frame_duration = 1500;
  codec = h265;
  override_path = bytes "/a.mp4";
  recording = true;
  writer_ready = true;
  file = some 7;
  mux = some 9;
  writer = true;
  current_file_bytes = 0;
  rotate_requested = false;
  stop_requested = false;
}

pub at_work-IsConsistent : IsConsistent at_work
at_work-IsConsistent = ground arith

-- As after a rotation that failed.
abbrev stalled : Recorder
stalled = record at_work { history = []; writer_ready = false; file = none; mux = none }

stalled-IsConsistent : IsConsistent stalled
stalled-IsConsistent = ground arith

abbrev pub two_frames : List Frame
two_frames = (1 ∷ 2 ∷ []) ∷ (3 ∷ []) ∷ []

pub full_disk-AlwaysFails : AlwaysFails full_disk
unfolding run_mux
full_disk-AlwaysFails h f d s = refl

working-NeverFails : NeverFails working
unfolding run_mux
working-NeverFails h f d s = λ e. cc

working-RefusesNegative : RefusesNegative working
working-RefusesNegative h n = refl

abbrev clips : List Entry
clips =
    record { name = bytes "0007.mp4"; is_directory = false; is_regular_file = true }
    ∷ record { name = bytes "notes.txt"; is_directory = false; is_regular_file = true }
    ∷ []

incremental_name_sample : incremental_name clips ≡ bytes "0008.mp4"
unfolding incremental_name max_index_from entry_index extension stem eq_bytes leading_digits stoi
    show pad is_empty
incremental_name_sample = refl

clips_largest : max_index_from (negsuc 0) clips ≡ pos 7
unfolding max_index_from entry_index extension stem eq_bytes leading_digits stoi is_empty
clips_largest = refl

clips_small : max_index_from (negsuc 0) clips ≢ pos int_max
clips_small = rw clips_largest (λ e. ground arith)

incremental_name-IsFree_example : All (IsFree (incremental_name clips)) clips
incremental_name-IsFree_example = incremental_name-IsFree clips clips_small

open_writer-Opens_example : Opens false stalled (open_writer working false stalled)
open_writer-Opens_example = open_writer-Opens working false stalled refl (omega arith)

file_write_callback-size_example :
    let (ok, s') = file_write_callback working (pos 10) (1 ∷ 2 ∷ []) at_work in
    (s'.current_file_bytes ≡ 12) × (s'.rotate_requested ≡ false)
unfolding file_write_callback
file_write_callback-size_example = file_write_callback-size working (pos 10) (1 ∷ 2 ∷ []) at_work

callback-beyond_long_example :
    let (ok, s') = file_write_callback working (pos 3000000000) (1 ∷ []) at_work in
    (ok ≡ false) × (s'.current_file_bytes ≡ 0) × (s'.rotate_requested ≡ false)
callback-beyond_long_example =
    callback-beyond_long working 3000000000 (1 ∷ []) at_work working-RefusesNegative refl
      (omega arith) (omega arith)

drain-ready_example :
    (q : Ring (Option Frame)) × IsDrained (record at_work { ring_buffer = q })
    × (drain working 3
          (record at_work { ring_buffer = Ring.push at_work.ring_buffer (some (1 ∷ [])) })
        ≡ outcome (write_frame working (1 ∷ []) (record at_work { ring_buffer = q })))
drain-ready_example = drain-ready working (1 ∷ []) 2 at_work at_work-IsConsistent refl

abbrev pub fresh : System
fresh = record { recorder = new true; alive = true }

Reach-new-IsSafe_example : IsSafe (record { recorder = start_recording (new true); alive = true })
Reach-new-IsSafe_example = Reach-new-IsSafe whole working true (next here (starts fresh))

failing_writes_go_on_example :
    let s' = handle_frames whole full_disk two_frames at_work in
    (s'.writer_ready ≡ true)
    × (s'.recording ≡ true)
    × (frames_written s'.history ≡ reverse two_frames)
failing_writes_go_on_example =
    failing_writes_go_on whole full_disk two_frames at_work full_disk-AlwaysFails
      at_work-IsConsistent refl

stale_stop_ends_recording_example :
    let s' =
      handle whole working (frame (some (1 ∷ []))) (record at_work { stop_requested = true }) in
    (s'.writer_ready ≡ false) × (s'.recording ≡ false) × (s'.stop_requested ≡ false)
stale_stop_ends_recording_example =
    stale_stop_ends_recording whole working (1 ∷ []) (record at_work { stop_requested = true })
      working-NeverFails (ground (arith, at_work-IsConsistent)) refl refl

stalled_recording_example :
    let s' = handle_frames whole working two_frames stalled in
    (s'.recording ≡ true)
    × (s'.writer_ready ≡ false)
    × (frames_written s'.history ≡ [])
    × (handle whole working start s' ≡ s')
stalled_recording_example =
    stalled_recording whole working two_frames stalled stalled-IsConsistent refl refl refl
