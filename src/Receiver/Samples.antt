-- ===== src/Receiver/Samples.antt =====
-- The receivers at concrete packets and answers.
use amldigital_fpv.Prelude.{
  suc, ◌≢◌, ◌%◌, ◌^◌, ◌||◌, ◌&&◌, none, some, take, if◌then◌else◌, tally, ℕ, ◌+◌, ◌≤◌, ◌≡◌, ◌++◌,
  refl, true, false, List, [], ◌∷◌, length, arith,
}
use mathlib.Core.List.{reverse}
use amldigital_fpv.Prelude.Int.{pos}
use amldigital_fpv.Text.{bytes, starts_with, contains}
use amldigital_fpv.Text.Decimal.{show_ℕ}
use amldigital_fpv.Codec.{unknown, h265}
use amldigital_fpv.Receiver.Pipeline.{
  construct_gstreamer_pipeline, construct_gstreamer_pipeline-feeds,
}
use amldigital_fpv.Receiver.Sockets.{
  Answers, IsCounted, receiver_on_path, create_udp_socket, destroy, sun_path, sockets-IsCounted,
  sun_path-name,
}
use amldigital_fpv.Receiver.Pull
use amldigital_fpv.Receiver.Pull.{
  Pulled, no_sample, sample, Puller, loop_pull_appsink_samples, pulled_frames, pulled_samples,
  loop_pull_appsink_samples-delivered,
}
use amldigital_fpv.Receiver.Audio.Playing.{Opening, play_loop}
use amldigital_fpv.Receiver.Audio.Playing.Order.{sizes, sizes_written, accepted, play_loop-sizes}
use amldigital_fpv.Receiver.Stream.{
  Gst, GstRtpReceiver, launched, launch, open_socket, create_reader, play, create_puller,
}
use amldigital_fpv.Receiver.Stream.Kept.{IsKept}
use amldigital_fpv.Receiver.Demux.{video_payload_type, Passed}
use amldigital_fpv.Receiver.Audio.{new, Turn, arrives, plays, turns, arrivals, turns-queue}

-- The pipeline is made, and there is no socket to be had.
abbrev pub no_sockets : Gst
no_sockets = record {
  parse_launch = λ h. launched;
  create_udp_socket = λ h. false;
  has_appsrc = λ h. true;
}

-- It receives with both threads.
abbrev pub at_work : GstRtpReceiver
at_work = record {
  pipeline = true;
  pull_samples_run = true;
  pull_samples_thread = true;
  unix_socket = false;
  sock = true;
  udp_appsrc = true;
  read_socket_run = true;
  read_socket_thread = true;
  calls = create_puller ∷ play ∷ create_reader ∷ open_socket ∷ launch ∷ [];
}

at_work-IsKept : IsKept at_work
unfolding tally
at_work-IsKept = ground arith

-- A packet of type 98 with the marker bit, and one byte behind the header.
abbrev sound : List ℕ
sound = 128 ∷ 226 ∷ 0 ∷ 1 ∷ 0 ∷ 0 ∷ 0 ∷ 2 ∷ 0 ∷ 0 ∷ 0 ∷ 3 ∷ 77 ∷ []

abbrev none_passed : Passed
none_passed = record { video = []; audio = [] }

abbrev arriving : List Turn
arriving = arrives (1 ∷ 2 ∷ []) ∷ arrives [] ∷ plays ∷ []

turns-queue_example :
    let a' = turns (λ h p. 960) arriving new in
    (length a'.queue ≤ 257)
    × ((a'.pkt_count + a'.drop_count) % 2 ^ 64
        ≡ (arrivals arriving + (new.pkt_count + new.drop_count)) % 2 ^ 64)
    × ((a'.pkt_count + (length new.queue + length new.decoded)) % 2 ^ 64
        ≡ (new.pkt_count + (length a'.queue + length a'.decoded)) % 2 ^ 64)
turns-queue_example = turns-queue (λ h p. 960) arriving new (omega arith)

h265-known : h265 ≢ unknown
h265-known = ground arith

construct_gstreamer_pipeline-feeds_example :
    (text : List ℕ) × (construct_gstreamer_pipeline false true (pos 5600) h265 (pos 0) ≡ some text)
    × (starts_with (bytes "appsrc name=appsrc ") text ≡ (false || true))
    × (contains (bytes "payload=(int)" ++ show_ℕ (video_payload_type h265)) text ≡ true)
    × (contains (bytes "name=out_appsink") text ≡ true)
construct_gstreamer_pipeline-feeds_example =
    construct_gstreamer_pipeline-feeds false true (pos 5600) h265 (pos 0) h265-known

-- The name is taken.
abbrev refusing : Answers
refusing = record { gst_init_check = true; socket = true; bind = false }

sockets-IsCounted_example :
    let named = receiver_on_path refusing (bytes "fpv") in
    let udp = create_udp_socket refusing (pos 5600) (pos 5242880) false [] in
    IsCounted named
    × IsCounted udp
    × IsCounted (destroy named)
    × IsCounted (destroy udp)
    × ((destroy named).0 ≡ false)
    × ((destroy udp).0 ≡ false)
unfolding tally
sockets-IsCounted_example =
    sockets-IsCounted refusing (bytes "fpv") (pos 5600) (pos 5242880) false [] refl

sun_path-name_example :
    (take (suc (length (bytes "fpv"))) (sun_path (bytes "fpv")) ≡ 0 ∷ bytes "fpv")
    × (suc (length (bytes "fpv")) ≤ length (sun_path (bytes "fpv")))
    × (length (sun_path (bytes "fpv")) ≡ 108)
sun_path-name_example = sun_path-name (bytes "fpv") (omega arith)

-- Nothing for a second, a frame, a sample without a buffer, and a frame behind the end.
abbrev pulls : List Pull.Round
pulls =
    record { keep_looping = true; now = 1000; pulled = no_sample }
    ∷ record { keep_looping = true; now = 1010; pulled = sample (some (1 ∷ [])) }
    ∷ record { keep_looping = true; now = 1020; pulled = sample none }
    ∷ record { keep_looping = false; now = 1030; pulled = sample (some (2 ∷ [])) }
    ∷ []

abbrev puller : Puller
puller = record {
  sample_counter = 0;
  last_sample_time = 0;
  last_idle_log = 0;
  delivered = [];
  reports = [];
  released = 0;
}

loop_pull_appsink_samples-delivered_example :
    let q = loop_pull_appsink_samples pulls puller in
    (reverse q.delivered ≡ reverse puller.delivered ++ pulled_frames pulls)
    × (q.released ≡ puller.released + pulled_samples pulls)
    × (q.sample_counter % 2 ^ 64 ≡ (puller.sample_counter + length (pulled_frames pulls)) % 2 ^ 64)
loop_pull_appsink_samples-delivered_example = loop_pull_appsink_samples-delivered pulls puller

abbrev opened : Opening
opened = record { decoder = true; opus_ok = true; output = true }

play_loop-sizes_example :
    let (a', calls) = play_loop opened (λ h p. 960) arriving new in
    let ok = opened.decoder && opened.opus_ok && opened.output in
    sizes_written calls ++ (if ok then sizes (λ h p. 960) a'.decoded a'.queue else []) ≡ (
      if ok
      then sizes
          (λ h p. 960)
          []
          (new.queue ++ accepted (λ h p. 960) arriving (record new { decoded = [] }))
      else [])
play_loop-sizes_example = play_loop-sizes opened (λ h p. 960) arriving new
