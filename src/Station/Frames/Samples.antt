-- ===== src/Station/Frames/Samples.antt =====
-- The way of the frames at concrete rounds.
use amldigital_fpv.Prelude.{◌≡◌, refl, true, false, List, [], ◌∷◌, ◌++◌, none, some}
use mathlib.Core.List.{reverse}
use amldigital_fpv.Dvr.Samples.{whole}
use amldigital_fpv.Aml.Submit.{wrote}
use amldigital_fpv.Receiver.Pull.{no_sample, sample, Puller, loop_pull_appsink_samples}
use amldigital_fpv.Station.Frames.{Flow, happen_all}
use amldigital_fpv.Station.Frames.Order.{passed}
use amldigital_fpv.Station.Frames.Pulled.{
  Pulling, pulls, decodes_next, loop_pull_samples, pulls_of, loop_pull_samples-passed,
}

abbrev a_second : List Pulling
a_second =
    pulls (record { keep_looping = true; now = 10; pulled = sample (some (1 ∷ 2 ∷ [])) })
    ∷ decodes_next 12 (wrote 2)
    ∷ pulls (record { keep_looping = true; now = 30; pulled = sample none })
    ∷ pulls (record { keep_looping = true; now = 40; pulled = sample (some (3 ∷ [])) })
    ∷ pulls (record { keep_looping = false; now = 140; pulled = no_sample })
    ∷ []

abbrev puller : Puller
puller = record {
  sample_counter = 0;
  last_sample_time = 0;
  last_idle_log = 0;
  delivered = [];
  reports = [];
  released = 0;
}

abbrev flow : Flow
flow = record {
  decode_queue = [];
  decoding_active = true;
  decoding = true;
  decoder = record { last_pts_us = 0; calls = [] };
  dvr = none;
  fps_window_start = 0;
  fps_window_frames = 0;
}

loop_pull_samples-passed_example :
    passed (happen_all whole (loop_pull_samples true a_second) flow)
    ≡ passed flow ++ reverse (loop_pull_appsink_samples (pulls_of a_second) puller).delivered
loop_pull_samples-passed_example = loop_pull_samples-passed whole a_second flow puller refl
