-- ===== src/Receiver/Playback.antt =====
-- The playback of GstRtpReceiver (src/gstrtpreceiver.cpp): its rate, pause and resume, and skips. The
-- pipeline is the one of Receiver/Stream; GStreamer answers by the calls so far.
pub mod Rates
pub mod Skips
mod Samples
use amldigital_fpv.Prelude.{
  Bool, true, false, not, List, [], ◌∷◌, Option, none, some, if◌then◌else◌,
}
use amldigital_fpv.Prelude.Int.{ℤ, pos, ltb_ℤ, eqb_ℤ, to_signed, to_unsigned, ◌+ℤ◌, ◌*ℤ◌}
use amldigital_fpv.Floats.{Floats}
use amldigital_fpv.Receiver.Stream.{Gst, GstRtpReceiver, stop_receiving, start_receiving}

-- A seek keeps the place and changes the rate, or goes to a place in nanoseconds at a rate; the
-- Boolean is whether it is taken, which only the log reads. The states are waited for by `get_state`.
pub data PlayCall (D : Type 0) : Type 0 where
  seek_rate : D → PlayCall D
  seek_place : D → ℤ → Bool → PlayCall D
  set_paused : PlayCall D
  set_playing : PlayCall D
  get_state : PlayCall D

-- Whether an event is taken, and whether a change of state does not fail; the place, where the
-- pipeline tells it.
pub record Pipeline (D : Type 0) : Type 0 where
  pub send_event : List (PlayCall D) → Bool
  pub state_change : List (PlayCall D) → Bool
  pub query_position : List (PlayCall D) → Option ℤ

pub record Player (D : Type 0) : Type 0 where
  pub receiver : GstRtpReceiver
  pub playback_rate : D
  pub is_paused : Bool
  pub pre_pause_rate : D
  pub calls : List (PlayCall D)

-- A place that the next skip goes to: in 64 bits, and not before the start.
unfoldable pub new_place : ℤ → ℤ → ℤ
unfolding ◌+ℤ◌ ◌*ℤ◌
new_place current_pos skip_ms =
    let place = to_signed 63 (to_unsigned 64 (current_pos +ℤ skip_ms *ℤ pos 1000000)) in
    if ltb_ℤ place (pos 0) then pos 0 else place

module _ (floats : Floats) where
  open floats use {Double, of_ℕ, neg, le, eq}

  unfoldable pub call : PlayCall Double → Player Double → Player Double
  call c p = record p { calls = c ∷ p.calls }

  -- The members as the constructor of the class leaves them.
  abbrev pub new_player : GstRtpReceiver → Player Double
  new_player r = record {
    receiver = r;
    playback_rate = of_ℕ 1;
    is_paused = false;
    pre_pause_rate = of_ℕ 1;
    calls = [];
  }

  -- The rate of a wind: 2 where the given one is not above 1.
  unfoldable pub wind_rate : Double → Double
  wind_rate rate = if le rate (of_ℕ 1) then of_ℕ 2 else rate

  module _ (gst : Pipeline Double) where
    unfoldable pub set_playback_rate : Double → Player Double → Player Double
    unfolding call
    set_playback_rate rate p =
        if not p.receiver.pipeline
        then p
        else let p' = call (seek_rate rate) p in
          if gst.send_event p.calls then record p' { playback_rate = rate } else p'

    unfoldable pub fast_forward : Double → Player Double → Player Double
    unfolding wind_rate
    fast_forward rate p = set_playback_rate (wind_rate rate) p

    unfoldable pub fast_rewind : Double → Player Double → Player Double
    unfolding wind_rate
    fast_rewind rate p = set_playback_rate (neg (wind_rate rate)) p

    unfoldable pub normal_playback : Player Double → Player Double
    normal_playback p = set_playback_rate (of_ℕ 1) p

    -- From the change of the state on: the second answer is that of `gst_element_get_state`.
    unfoldable pub enter_pause : Player Double → Player Double
    unfolding call
    enter_pause p =
        let p1 = call set_paused p in
        if not (gst.state_change p.calls)
        then p1
        else let p2 = call get_state p1 in
          if not (gst.state_change p1.calls) then p2 else record p2 { is_paused = true }

    unfoldable pub pause : Player Double → Player Double
    pause p =
        if not p.receiver.pipeline
        then p
        else if p.is_paused
        then p
        else enter_pause (record p { pre_pause_rate = p.playback_rate })

    -- The rate before the pause, if it is not 1.
    unfoldable pub restore_rate : Player Double → Player Double
    restore_rate p =
        if eq p.pre_pause_rate (of_ℕ 1) then p else set_playback_rate p.pre_pause_rate p

    unfoldable pub resume : Player Double → Player Double
    unfolding call
    resume p =
        if not p.receiver.pipeline
        then p
        else if not p.is_paused
        then p
        else let p1 = call set_playing p in
          if not (gst.state_change p.calls)
          then p1
          else record (restore_rate p1) { is_paused = false }

    -- From the place on: the seek is at the rate 1.
    unfoldable pub skip_from : ℤ → ℤ → Player Double → Player Double
    unfolding call new_place
    skip_from skip_ms current_pos p =
        call (seek_place (of_ℕ 1) (new_place current_pos skip_ms) (gst.send_event p.calls)) p

    unfoldable pub skip_duration : ℤ → Player Double → Player Double
    skip_duration skip_ms p =
        if not p.receiver.pipeline
        then p
        else if eqb_ℤ skip_ms (pos 0)
        then p
        else elim (gst.query_position p.calls) [
          | none ↦ p
          | some current_pos ↦ skip_from skip_ms current_pos p
        ]

-- What the players do: their methods, and a stop and a start of the stream, which leave the members
-- of the playback as they are.
pub data Use (D : Type 0) : Type 0 where
  forwards : D → Use D
  rewinds : D → Use D
  normal : Use D
  pauses : Use D
  resumes : Use D
  skips : ℤ → Use D
  restarts : Use D

module _ (floats : Floats) (stream : Gst) (gst : Pipeline floats.Double) where
  open floats use {Double}

  unfoldable pub restart : Player Double → Player Double
  restart p = record p { receiver = start_receiving stream (stop_receiving p.receiver) }

  unfoldable pub use_player : Use Double → Player Double → Player Double
  use_player (forwards rate) p = fast_forward floats gst rate p
  use_player (rewinds rate) p = fast_rewind floats gst rate p
  use_player normal p = normal_playback floats gst p
  use_player pauses p = pause floats gst p
  use_player resumes p = resume floats gst p
  use_player (skips ms) p = skip_duration floats gst ms p
  use_player restarts p = restart p

  unfoldable pub use_all : List (Use Double) → Player Double → Player Double
  use_all [] p = p
  use_all (u ∷ us) p = use_all us (use_player u p)
