-- ===== src/Receiver/Pull.antt =====
-- `loop_pull_appsink_samples` of src/gstrtpreceiver.cpp, the thread that takes the frames from the
-- pipeline's sink and gives them to the receiver's callback.
use amldigital_fpv.Prelude.{
  list_laws, ℕ, ◌+◌, ◌-◌, ◌%◌, ◌^◌, ◌≡◌, sym, Bool, Bool-cases, inl, inr, List, [], ◌∷◌, ◌++◌,
  append-nil, Option, none, some, leb, length, length-append, if◌then◌else◌, arith,
}
use mathlib.Core.List.{reverse, reverse-cons}
use amldigital_fpv.Dvr.World.{Frame}

-- What `gst_app_sink_try_pull_sample` gives within its time: nothing, or a sample, which may have no
-- buffer. A round also has the time of the clock, in milliseconds.
pub data Pulled : Type 0 where
  no_sample : Pulled
  sample : Option Frame → Pulled

-- What the log is told.
pub data Report : Type 0 where
  -- The sequence number, the size, and the time since the last one.
  arrived : ℕ → ℕ → ℕ → Report
  idle : ℕ → ℕ → Report

pub record Puller : Type 0 where
  -- `g_sample_counter`
  pub sample_counter : ℕ
  pub last_sample_time : ℕ
  pub last_idle_log : ℕ
  -- The frames that the callback was given, and the log, the last in front.
  pub delivered : List Frame
  pub reports : List Report
  -- The samples that were given back.
  pub released : ℕ

-- `gst_copy_buffer`, where the mapping is of the buffer's size, as it asserts.
abbrev gst_copy_buffer : Frame → Frame
gst_copy_buffer buffer = buffer

-- A frame in a sample: it is counted, the clock's time kept, and a copy given to the callback.
unfoldable pub take_buffer : ℕ → Frame → Puller → Puller
take_buffer now buffer p =
    let seq = (p.sample_counter + 1) % 2 ^ 64 in
    record p {
      sample_counter = seq;
      last_sample_time = now;
      last_idle_log = now;
      delivered = gst_copy_buffer buffer ∷ p.delivered;
      reports = arrived seq (length buffer) (now - p.last_sample_time) ∷ p.reports;
    }

-- `gst_sample_unref`
unfoldable pub release : Puller → Puller
release p = record p { released = p.released + 1 }

unfoldable pub report_idle : ℕ → Puller → Puller
report_idle now p =
    let idle_ms = now - p.last_idle_log in
    if leb 1000 idle_ms
    then record p { reports = idle idle_ms p.sample_counter ∷ p.reports; last_idle_log = now }
    else p

-- A round of the loop.
unfoldable pub pull_round : ℕ → Pulled → Puller → Puller
unfolding take_buffer release report_idle
pull_round now no_sample p = report_idle now p
pull_round now (sample none) p = release p
pull_round now (sample (some buffer)) p = release (take_buffer now buffer p)

-- The loop, over what each round pulls and the time of it, for as long as it is told to run: the
-- flag that a round finds cleared ends it.
pub record Round : Type 0 where
  pub keep_looping : Bool
  pub now : ℕ
  pub pulled : Pulled

unfoldable pub loop_pull_appsink_samples : List Round → Puller → Puller
loop_pull_appsink_samples [] p = p
loop_pull_appsink_samples (r ∷ rs) p =
    let rest = loop_pull_appsink_samples rs (pull_round r.now r.pulled p) in
    if r.keep_looping then rest else p

-- What came before the flag was cleared: the frames, and how many samples.
unfoldable pub frames_in : Pulled → List Frame
frames_in no_sample = []
frames_in (sample none) = []
frames_in (sample (some buffer)) = buffer ∷ []

unfoldable pub samples_in : Pulled → ℕ
samples_in no_sample = 0
samples_in (sample s) = 1

unfoldable pub pulled_frames : List Round → List Frame
pulled_frames [] = []
pulled_frames (r ∷ rs) =
    let rest = pulled_frames rs in if r.keep_looping then frames_in r.pulled ++ rest else []

unfoldable pub pulled_samples : List Round → ℕ
pulled_samples [] = 0
pulled_samples (r ∷ rs) =
    let rest = pulled_samples rs in if r.keep_looping then samples_in r.pulled + rest else 0

pull_round-delivered :
    (now : ℕ) (pulled : Pulled) (p : Puller)
    → reverse (pull_round now pulled p).delivered ≡ reverse p.delivered ++ frames_in pulled
unfolding pull_round take_buffer release report_idle frames_in
pull_round-delivered now no_sample p = ground (arith, append-nil (reverse p.delivered))
pull_round-delivered now (sample none) p = sym (append-nil (reverse p.delivered))
pull_round-delivered now (sample (some buffer)) p = reverse-cons buffer p.delivered

pull_round-counts :
    (now : ℕ) (pulled : Pulled) (p : Puller)
    → let q = pull_round now pulled p in
      (q.released ≡ p.released + samples_in pulled)
      × (q.sample_counter % 2 ^ 64 ≡ (p.sample_counter + length (frames_in pulled)) % 2 ^ 64)
unfolding pull_round take_buffer release report_idle frames_in samples_in
pull_round-counts now no_sample p = ground arith
pull_round-counts now (sample none) p = ground arith
pull_round-counts now (sample (some buffer)) p = ground arith

-- The thread gives the callback exactly the frames that it pulls before it is told to stop, each once
-- and in their order, counts them, up to a wrap of 64 bits, and gives back every sample, also one
-- without a buffer, once.
pub loop_pull_appsink_samples-delivered :
    (rounds : List Round) (p : Puller)
    → let q = loop_pull_appsink_samples rounds p in
      (reverse q.delivered ≡ reverse p.delivered ++ pulled_frames rounds)
      × (q.released ≡ p.released + pulled_samples rounds)
      × (q.sample_counter % 2 ^ 64 ≡ (p.sample_counter + length (pulled_frames rounds)) % 2 ^ 64)
unfolding loop_pull_appsink_samples pulled_frames pulled_samples
loop_pull_appsink_samples-delivered [] p =
    (sym (append-nil (reverse p.delivered)), omega arith, omega arith)
loop_pull_appsink_samples-delivered (r ∷ rs) p = elim (Bool-cases r.keep_looping) [
  | inl runs ↦
      let q = pull_round r.now r.pulled p in
      let (delivered, released, counted) = loop_pull_appsink_samples-delivered rs q in
      let (gave_back, counts) = pull_round-counts r.now r.pulled p in
      rw runs (
        simp (delivered, pull_round-delivered r.now r.pulled p, list_laws),
        omega (arith, released, gave_back),
        omega (arith, counted, counts, length-append (frames_in r.pulled) (pulled_frames rs)),
      )
  | inr over ↦ rw over (sym (append-nil (reverse p.delivered)), omega arith, omega arith)
]
