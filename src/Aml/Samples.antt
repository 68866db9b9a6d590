-- ===== src/Aml/Samples.antt =====
-- The decoder's front end at concrete answers.
use amldigital_fpv.Prelude.{
  tally, ◌≡◌, ◌++◌, refl, true, false, List, [], ◌∷◌, none, some, map, length, leb, arith,
}
use mathlib.Core.List.{reverse}
use amldigital_fpv.Prelude.Int.{pos, negsuc}
use amldigital_fpv.Text.{bytes}
use amldigital_fpv.Aml.Display.{Driver, got, aml_display_thread, taken, offered, given, StopsBy}
use amldigital_fpv.Aml.Display.Order.{HoldsNone, aml_display_thread-HoldsNone}
use amldigital_fpv.Aml.Display.Ends.{Terminates, aml_display_thread-Terminates}
use amldigital_fpv.Aml.Submit.{
  Decoder, Submission, wrote, failed, submit_all, aml_submit_decode_unit,
}
use amldigital_fpv.Aml.Submit.Stamps.{IsStamped, written, stamps, submit_all-IsStamped}
use amldigital_fpv.Aml.Front.{
  Machine, Front, allocate_config, open_video, create_thread, join_thread, close_video,
}
use amldigital_fpv.Aml.Setup.Order.{in_order}
use amldigital_fpv.Aml.Setup.{aml_setup, aml_cleanup}
use amldigital_fpv.Aml.Setup.Tidy.{
  IsTidy, IsSetUp, IsGivenBack, aml_setup-IsSetUp, aml_cleanup-IsGivenBack,
}

-- A picture is ready at every call; the thread is told to stop after ten calls.
abbrev busy : Driver
busy = record { dqbuf = λ h. got (length h); qbuf = λ h i. true; is_done = λ h. leb 10 (length h) }

busy-StopsBy : StopsBy 10 busy
busy-StopsBy h late = ground arith

aml_display_thread-HoldsNone_example : HoldsNone (aml_display_thread busy 12 [])
unfolding taken given offered
aml_display_thread-HoldsNone_example =
    aml_display_thread-HoldsNone busy 12 [] (record { back = refl; accepted = refl })

aml_display_thread-Terminates_example : Terminates (aml_display_thread busy 12 [])
aml_display_thread-Terminates_example =
    aml_display_thread-Terminates busy 10 busy-StopsBy 12 [] (omega arith) (omega arith)

-- The second frame comes in the same millisecond, and the decoder fails on it.
abbrev submissions : List Submission
submissions =
    record { time_ms = 100; answer = wrote 2; bytes = 1 ∷ 2 ∷ [] }
    ∷ record { time_ms = 100; answer = failed (negsuc 0); bytes = 3 ∷ [] }
    ∷ []

abbrev idle : Decoder
idle = record { last_pts_us = 0; calls = [] }

stamps_sample : stamps (submit_all submissions idle).calls ≡ 93000 ∷ 92000 ∷ []
unfolding stamps submit_all aml_submit_decode_unit
stamps_sample = refl

idle-IsStamped : IsStamped idle
unfolding stamps
idle-IsStamped = tt

submit_all-IsStamped_example :
    let d' = submit_all submissions idle in
    IsStamped d'
    × (written d'.calls
        ≡ reverse (map (λ (u : Submission). u.bytes) submissions) ++ written idle.calls)
submit_all-IsStamped_example =
    submit_all-IsStamped submissions 100000 idle
      (omega arith, omega arith, (omega arith, omega arith, tt)) (omega arith) (omega arith)
      idle-IsStamped

abbrev machine : Machine
machine = record {
  release = some (4, 9);
  has_av1 = false;
  strdup = true;
  decoder_result = λ c. pos 0;
  vfm_map = some (bytes "default { decoder amlvideo }" ++ 10 ∷ []);
  opens_video = true;
  creates_thread = true;
}

abbrev front : Front
front = record {
  codec = record {
    has_video = false;
    noblock = false;
    frame_stream = false;
    frame_mode = false;
    amvideo = false;
    video_type = none;
    width = pos 0;
    height = pos 0;
    rate = pos 0;
    param = 0;
    vbuf_size = pos 0;
    config = none;
  };
  video_open = false;
  thread = false;
  is_done = false;
  pkt_buf_size = 0;
  calls = [];
}

front-IsTidy : IsTidy front
unfolding tally
front-IsTidy = record {
  video = refl;
  thread = refl;
  shows = refl;
  config = refl;
  ordered = record { order = refl; video = refl; thread = refl; done = refl; config = refl };
}

aml_setup-IsSetUp_example : IsSetUp machine (pos 120) (
    aml_setup machine (pos 0) (pos 1920) (pos 1080) (pos 120) (pos 1) (pos 0) (pos 4) (pos 1) front)
aml_setup-IsSetUp_example =
    aml_setup-IsSetUp machine (pos 0) (pos 1920) (pos 1080) (pos 120) (pos 1) (pos 0) (pos 4)
      (pos 1) front (front-IsTidy, refl)

-- As a setup leaves it that opens the device and starts the thread.
abbrev at_work : Front
at_work = record front {
  codec = record front.codec { config = some (bytes "low_latency") };
  video_open = true;
  thread = true;
  calls = create_thread true ∷ open_video ∷ allocate_config ∷ [];
}

at_work-IsTidy : IsTidy at_work
unfolding tally
at_work-IsTidy = record {
  video = refl;
  thread = refl;
  shows = refl;
  config = refl;
  ordered = record { order = refl; video = refl; thread = refl; done = refl; config = refl };
}

aml_cleanup-IsGivenBack_example : IsGivenBack (aml_cleanup at_work)
aml_cleanup-IsGivenBack_example = aml_cleanup-IsGivenBack at_work at_work-IsTidy refl

-- Without being told to end, the thread is not joined.
joined_untold : in_order (close_video ∷ join_thread ∷ create_thread true ∷ open_video ∷ []) ≡ false
joined_untold = refl
