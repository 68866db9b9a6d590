-- ===== src/Receiver/Playback/Rates.antt =====
-- The rates of the playback: what pause and resume keep, what they lose, and what is sent.
use amldigital_fpv.Prelude.{◌≡◌, true, false, List, ◌∷◌, arith}
use amldigital_fpv.Floats.{Floats}
use amldigital_fpv.Receiver.Playback.{
  PlayCall, seek_rate, set_playing, Pipeline, Player, call, wind_rate, set_playback_rate,
  fast_forward, restore_rate, resume,
}

module _ (floats : Floats) (gst : Pipeline floats.Double) where
  open floats use {Double, of_ℕ, neg, le, eq}

  -- A rate that is chosen in a pause of a player with a pipeline is lost: where the rate before the
  -- pause was not 1, resuming goes back to that one, though GStreamer takes every change.
  pub resume-fast_forward :
      (rate : Double) (p : Player Double)
      → p.receiver.pipeline ≡ true
      → p.is_paused ≡ true
      → eq p.pre_pause_rate (of_ℕ 1) ≡ false
      → ((h : List (PlayCall Double)) → gst.send_event h ≡ true)
      → ((h : List (PlayCall Double)) → gst.state_change h ≡ true)
      → let q = fast_forward floats gst rate p in
        (q.playback_rate ≡ wind_rate floats rate)
        × ((resume floats gst q).playback_rate ≡ p.pre_pause_rate)
        × ((resume floats gst q).is_paused ≡ false)
  unfolding fast_forward resume restore_rate set_playback_rate call
  resume-fast_forward rate p there paused other sends changes =
      let sought = seek_rate (wind_rate floats rate) ∷ p.calls in
      ground (arith, sends p.calls, changes sought, sends (set_playing ∷ sought))
