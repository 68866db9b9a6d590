-- ===== src/Receiver/Playback/Skips.antt =====
-- What is sent to the pipeline, over any use of the player: the rates of the seeks and their places.
use amldigital_fpv.Prelude.{
  ℕ, suc, ◌+◌, ◌-◌, ◌*◌, ◌^◌, ◌<◌, ◌⊎◌, ◌≡◌, refl, true, false, List, [], ◌∷◌, ◌++◌, Bool-cases,
  not, ◌&&◌, some, arith, inl, inr, Option-cases,
}
use amldigital_fpv.Prelude.Int.{ℤ, pos, negsuc, ltb_ℤ, eqb_ℤ}
use amldigital_fpv.Floats.{Floats}
use amldigital_fpv.Receiver.Stream.{Gst}
use amldigital_fpv.Receiver.Playback.{
  PlayCall, seek_rate, seek_place, set_paused, get_state, set_playing, Pipeline, Player, new_place,
  call, wind_rate, set_playback_rate, fast_forward, fast_rewind, normal_playback, enter_pause,
  pause, restore_rate, resume, skip_from, skip_duration, Use, forwards, rewinds, normal, pauses,
  resumes, skips, restarts, restart, use_player, use_all,
}

new_place-positive :
    (current_pos skip_ms : ℤ) → ltb_ℤ (new_place current_pos skip_ms) (pos 0) ≡ false
unfolding new_place
new_place-positive current_pos skip_ms = ground arith

new_place_back :
    (n k : ℕ)
    → n < 2 ^ 63
    → suc k * 1000000 < 2 ^ 63
    → new_place (pos n) (negsuc k) ≡ pos (n - suc k * 1000000)
unfolding new_place
new_place_back n k small near = ground arith

new_place_forth :
    (n k : ℕ) → n + k * 1000000 < 2 ^ 63 → new_place (pos n) (pos k) ≡ pos (n + k * 1000000)
unfolding new_place
new_place_forth n k near = ground arith

module _ (floats : Floats) where
  open floats use {Double, of_ℕ, neg, le, eq}

  -- A rate of the player: 1, one that is not at most 1, or the negative of such a one. A number that
  -- is no number is not at most 1 either.
  abbrev pub IsRate : Double → Type 0
  IsRate r =
      (r ≡ of_ℕ 1)
      ⊎ ((le r (of_ℕ 1) ≡ false) ⊎ ((w : Double) × (r ≡ neg w) × (le w (of_ℕ 1) ≡ false)))

  -- The speed of a wind that is asked for at a rate: that rate or 2, and not at most 1.
  abbrev pub IsSpeed : Double → Double → Type 0
  IsSpeed rate w = ((w ≡ rate) ⊎ (w ≡ of_ℕ 2)) × (le w (of_ℕ 1) ≡ false)

  -- What a use of the player may send to the pipeline: a wind forwards its speed, a rewind the
  -- negative of its speed, the normal playback 1, a resume the change of the state and a rate, a
  -- pause the change of the state and the wait for it, a skip one seek at the rate 1 to no place
  -- before the start. A stop and a start of the stream send nothing to it.
  abbrev pub IsSentFor : Use Double → PlayCall Double → Type 0
  IsSentFor (forwards rate) (seek_rate r) = IsSpeed rate r
  IsSentFor (rewinds rate) (seek_rate r) = (w : Double) × (r ≡ neg w) × IsSpeed rate w
  IsSentFor normal (seek_rate r) = r ≡ of_ℕ 1
  IsSentFor resumes (seek_rate r) = IsRate r
  IsSentFor resumes set_playing = Unit
  IsSentFor pauses set_paused = Unit
  IsSentFor pauses get_state = Unit
  IsSentFor (skips ms) (seek_place r z ok) = (r ≡ of_ℕ 1) × (ltb_ℤ z (pos 0) ≡ false)
  IsSentFor _ _ = ⊥

  abbrev pub AllSentFor : Use Double → List (PlayCall Double) → Type 0
  AllSentFor u [] = Unit
  AllSentFor u (c ∷ cs) = IsSentFor u c × AllSentFor u cs

  pub record IsSteady (p : Player Double) : Type 0 where
    pub rate : IsRate p.playback_rate
    pub before : IsRate p.pre_pause_rate

  -- A use: what it sent, which is what it may, and the player behind it.
  pub record Sends (u : Use Double) (p p' : Player Double) : Type 0 where
    pub sent : List (PlayCall Double)
    pub added : p'.calls ≡ sent ++ p.calls
    pub allowed : AllSentFor u sent
    pub steady : IsSteady p'

  says :
      (u : Use Double) {p p' : Player Double} (sent : List (PlayCall Double))
      → IsSteady p'
      → p'.calls ≡ sent ++ p.calls
      → AllSentFor u sent
      → Sends u p p'
  says u sent steady added allowed = record {
    sent = sent;
    added = added;
    allowed = allowed;
    steady = steady;
  }

  -- What the methods need of the doubles: 2 is not at most 1.
  abbrev pub TwoAboveOne : Type 0
  TwoAboveOne = le (of_ℕ 2) (of_ℕ 1) ≡ false

  wind_rate-IsSpeed : (rate : Double) → TwoAboveOne → IsSpeed rate (wind_rate floats rate)
  unfolding wind_rate
  wind_rate-IsSpeed rate two = ground arith

  module _ (gst : Pipeline Double) where
    set_playback_rate-IsSteady :
        (r : Double) (p : Player Double)
        → IsRate r
        → IsSteady p
        → IsSteady (set_playback_rate floats gst r p)
    unfolding set_playback_rate call
    set_playback_rate-IsSteady r p rate s = ground arith

    set_playback_rate-Sends :
        (u : Use Double) (r : Double) (p : Player Double)
        → IsRate r
        → IsSentFor u (seek_rate r)
        → IsSteady p
        → Sends u p (set_playback_rate floats gst r p)
    set_playback_rate-Sends u r p rate allowed s =
        let steady = set_playback_rate-IsSteady r p rate s in
        elim (Bool-cases p.receiver.pipeline) [
          | inl there ↦
              says u (seek_rate r ∷ []) steady
                (unfold set_playback_rate call in ground (arith, there)) (allowed, tt)
          | inr none ↦ says u [] steady (unfold set_playback_rate call in ground (arith, none)) tt
        ]

    pause-IsSteady : (p : Player Double) → IsSteady p → IsSteady (pause floats gst p)
    unfolding pause enter_pause call
    pause-IsSteady p s = ground arith

    pause-Sends : (p : Player Double) → IsSteady p → Sends pauses p (pause floats gst p)
    pause-Sends p s =
        let steady = pause-IsSteady p s in
        let p1 = call floats set_paused p in
        elim (Bool-cases (p.receiver.pipeline && not p.is_paused)) [
          | inr refused ↦ says pauses [] steady (unfold pause in ground (arith, refused)) tt
          | inl begun ↦ elim (Bool-cases (gst.state_change p.calls)) [
            | inr fails ↦
                says pauses (set_paused ∷ []) steady
                  (unfold pause enter_pause call in ground (arith, begun, fails)) (tt, tt)
            | inl changes ↦
                says pauses (get_state ∷ set_paused ∷ []) steady
                  (unfold pause enter_pause call in ground (arith, begun, changes)) (tt, (tt, tt))
          ]
        ]

    resume-IsSteady : (p : Player Double) → IsSteady p → IsSteady (resume floats gst p)
    unfolding resume restore_rate call
    resume-IsSteady p s =
        let p' = call floats set_playing p in
        ground (arith, set_playback_rate-IsSteady p.pre_pause_rate p' s.before)

    resume-Sends : (p : Player Double) → IsSteady p → Sends resumes p (resume floats gst p)
    resume-Sends p s =
        let steady = resume-IsSteady p s in
        let back = gst.state_change p.calls && not (eq p.pre_pause_rate (of_ℕ 1)) in
        elim (Bool-cases (p.receiver.pipeline && p.is_paused)) [
          | inr refused ↦ says resumes [] steady (unfold resume in ground (arith, refused)) tt
          | inl begun ↦ elim (Bool-cases back) [
            | inr alone ↦
                says resumes (set_playing ∷ []) steady
                  (unfold resume restore_rate call in ground (arith, begun, alone)) (tt, tt)
            | inl both ↦
                says resumes (seek_rate p.pre_pause_rate ∷ set_playing ∷ []) steady
                  (unfold resume restore_rate set_playback_rate call in ground (arith, begun, both))
                  (s.before, (tt, tt))
          ]
        ]

    skip_duration-Sends :
        (ms : ℤ) (p : Player Double)
        → IsSteady p
        → Sends (skips ms) p (skip_duration floats gst ms p)
    skip_duration-Sends ms p s =
        let steady : IsSteady (skip_duration floats gst ms p) =
          unfold skip_duration skip_from call in ground (arith, s) in
        elim (Bool-cases (p.receiver.pipeline && not (eqb_ℤ ms (pos 0)))) [
          | inr refused ↦
              says (skips ms) [] steady (unfold skip_duration in ground (arith, refused)) tt
          | inl begun ↦ elim (Option-cases (gst.query_position p.calls)) [
            | inl e ↦
                says (skips ms) [] steady (unfold skip_duration in ground (arith, begun, e)) tt
            | inr (z, e) ↦
                says (skips ms) (seek_place (of_ℕ 1) (new_place z ms) (gst.send_event p.calls) ∷ [])
                  steady (unfold skip_duration skip_from call in ground (arith, begun, e))
                  ((refl, new_place-positive z ms), tt)
          ]
        ]

    -- A skip of a player whose place is known, as long as the places fit into 64 bits with a sign: by
    -- so many milliseconds forwards it asks the pipeline for a place that much on, and backwards for
    -- one that much back but not before the start, at the rate 1 in both cases. Whether or not the
    -- pipeline takes that, the player keeps its rate.
    pub skip_duration-place :
        (n k : ℕ) (p : Player Double)
        → p.receiver.pipeline ≡ true
        → gst.query_position p.calls ≡ some (pos n)
        → n + suc k * 1000000 < 2 ^ 63
        → let forth = skip_duration floats gst (pos (suc k)) p in
          let back = skip_duration floats gst (negsuc k) p in
          let taken = gst.send_event p.calls in
          (forth.calls ≡ seek_place (of_ℕ 1) (pos (n + suc k * 1000000)) taken ∷ p.calls)
          × (back.calls ≡ seek_place (of_ℕ 1) (pos (n - suc k * 1000000)) taken ∷ p.calls)
          × (forth.playback_rate ≡ p.playback_rate)
          × (back.playback_rate ≡ p.playback_rate)
    unfolding skip_duration skip_from call
    skip_duration-place n k p there known near =
        ground
          (arith, new_place_forth n (suc k) near, new_place_back n k (omega arith) (omega arith))

  module _ (stream : Gst) (gst : Pipeline Double) where
    use_player-Sends :
        (u : Use Double) (p : Player Double)
        → TwoAboveOne
        → IsSteady p
        → Sends u p (use_player floats stream gst u p)
    unfolding use_player fast_forward fast_rewind normal_playback
    use_player-Sends (forwards rate) p two s =
        let speed = wind_rate-IsSpeed rate two in
        set_playback_rate-Sends gst (forwards rate) _ p (inr (inl speed.1)) speed s
    use_player-Sends (rewinds rate) p two s =
        let speed = wind_rate-IsSpeed rate two in
        set_playback_rate-Sends gst (rewinds rate) _ p (inr (inr (_, refl, speed.1)))
          (_, refl, speed) s
    use_player-Sends normal p two s = set_playback_rate-Sends gst normal _ p (inl refl) refl s
    use_player-Sends pauses p two s = pause-Sends gst p s
    use_player-Sends resumes p two s = resume-Sends gst p s
    use_player-Sends (skips ms) p two s = skip_duration-Sends gst ms p s
    use_player-Sends restarts p two s = record {
      sent = [];
      added = unfold restart in refl;
      allowed = tt;
      steady = unfold restart in ground arith;
    }

    use_all-IsSteady :
        (us : List (Use Double)) (p : Player Double)
        → TwoAboveOne
        → IsSteady p
        → IsSteady (use_all floats stream gst us p)
    unfolding use_all
    use_all-IsSteady [] p two s = s
    use_all-IsSteady (u ∷ us) p two s =
        use_all-IsSteady us _ two (use_player-Sends u p two s).steady

    -- From a steady state, where 2 is not at most 1, and however the player was used before, restarts
    -- included: a wind sends at most rates that are the one asked for or 2 and not at most 1, a
    -- rewind the negatives of such rates, the normal playback the rate 1, and a resume such a rate, a
    -- negative of one, or 1; a skip sends seeks at the rate 1 to places not before the start; pauses
    -- and restarts send no seek. The player's rate and the one that a pause keeps stay such rates.
    pub use_all-Sends :
        (us : List (Use Double)) (u : Use Double) (p : Player Double)
        → TwoAboveOne
        → IsSteady p
        → let q = use_all floats stream gst us p in Sends u q (use_player floats stream gst u q)
    use_all-Sends us u p two s = use_player-Sends u _ two (use_all-IsSteady us p two s)
