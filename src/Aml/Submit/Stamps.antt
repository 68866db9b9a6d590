-- ===== src/Aml/Submit/Stamps.antt =====
-- The time stamps that the decoder gets: they grow from frame to frame.
use amldigital_fpv.Prelude.{
  list_laws, ℕ, suc, ◌+◌, ◌*◌, ◌^◌, ◌≤◌, ◌<◌, ◌≡◌, refl, List, [], ◌∷◌, ◌++◌, arith, length, map,
}
use mathlib.Core.List.{reverse}
use amldigital_fpv.Aml.Submit.{
  CodecWrite, wrote, would_block, failed, DecoderCall, checkin_pts_us64, codec_write, Decoder,
  wall_pts, next_pts, after_codec_write, aml_submit_decode_unit, Submission, submit_all,
}

unfoldable pub stamps : List DecoderCall → List ℕ
stamps [] = []
stamps (checkin_pts_us64 pts ∷ calls) = pts ∷ stamps calls
stamps (_ ∷ calls) = stamps calls

unfoldable pub written : List DecoderCall → List (List ℕ)
written [] = []
written (codec_write unit ∷ calls) = unit ∷ written calls
written (_ ∷ calls) = written calls

-- Each number is below the one in front of it, and the first one below the bound.
abbrev pub Descends : ℕ → List ℕ → Type 0
Descends bound [] = Unit
Descends bound (p ∷ ps) = (p < bound) × Descends p ps

Descends-weaken : (m n : ℕ) (ps : List ℕ) → m ≤ n → Descends m ps → Descends n ps
Descends-weaken m n [] le d = tt
Descends-weaken m n (p ∷ ps) le d = (omega (arith, d.0), d.1)

-- The stamps so far grew, up to `last_pts_us`.
abbrev pub IsStamped : Decoder → Type 0
IsStamped d = Descends (suc d.last_pts_us) (stamps d.calls)

-- Every frame comes at 8 ms or later, and not after `limit` µs.
abbrev pub Timely : ℕ → List Submission → Type 0
Timely limit [] = Unit
Timely limit (u ∷ us) = (8 ≤ u.time_ms) × (u.time_ms * 1000 ≤ limit) × Timely limit us

Timely-later : (m n : ℕ) (us : List Submission) → m ≤ n → Timely m us → Timely n us
Timely-later m n [] le t = tt
Timely-later m n (u ∷ us) le t = (t.0, omega (arith, t.1), Timely-later m n us le t.2)

next_pts-grows :
    (time_ms last limit : ℕ)
    → 8 ≤ time_ms
    → time_ms * 1000 ≤ limit
    → last ≤ limit
    → limit + 1000 < 2 ^ 64
    → (last < next_pts time_ms last) × (next_pts time_ms last ≤ limit + 1000)
unfolding next_pts wall_pts
next_pts-grows time_ms last limit early late small room = ground arith

stamps-after_codec_write :
    (answer : CodecWrite) (calls : List DecoderCall)
    → (stamps (after_codec_write answer calls) ≡ stamps calls)
      × (written (after_codec_write answer calls) ≡ written calls)
unfolding after_codec_write stamps written
stamps-after_codec_write (wrote n) calls = (refl, refl)
stamps-after_codec_write (would_block code) calls = (refl, refl)
stamps-after_codec_write (failed code) calls = (refl, refl)

-- Each frame is written, whatever the decoder answers.
pub submit-written :
    (time_ms : ℕ) (answer : CodecWrite) (unit : List ℕ) (d : Decoder)
    → written (aml_submit_decode_unit time_ms answer unit d).1.calls ≡ unit ∷ written d.calls
unfolding aml_submit_decode_unit written
submit-written time_ms answer unit d =
    (stamps-after_codec_write answer
      (codec_write unit ∷ checkin_pts_us64 (next_pts time_ms d.last_pts_us) ∷ d.calls)).1

submit-IsStamped :
    (u : Submission) (limit : ℕ) (d : Decoder)
    → 8 ≤ u.time_ms
    → u.time_ms * 1000 ≤ limit
    → d.last_pts_us ≤ limit
    → limit + 1000 < 2 ^ 64
    → IsStamped d
    → let d' = (aml_submit_decode_unit u.time_ms u.answer u.bytes d).1 in
      IsStamped d'
      × (d'.last_pts_us ≤ limit + 1000)
      × (written d'.calls ≡ u.bytes ∷ written d.calls)
unfolding aml_submit_decode_unit stamps written
submit-IsStamped u limit d early late small room stamped =
    let pts = next_pts u.time_ms d.last_pts_us in
    let (grows, below) = next_pts-grows u.time_ms d.last_pts_us limit early late small room in
    let (s, w) =
      stamps-after_codec_write u.answer (codec_write u.bytes ∷ checkin_pts_us64 pts ∷ d.calls) in
    (rw s (omega arith, Descends-weaken (suc d.last_pts_us) pts _ (omega arith) stamped), below, w)

-- From a decoder whose stamps grew so far: whatever it answers, each frame is given to it once and in
-- order, with stamps that grow from frame to frame: for frames from 8 ms on, as long as a millisecond
-- for each of them fits between the latest time, or the last stamp, and 2^64 µs.
pub submit_all-IsStamped :
    (us : List Submission) (limit : ℕ) (d : Decoder)
    → Timely limit us
    → d.last_pts_us ≤ limit
    → limit + 1000 * length us < 2 ^ 64
    → IsStamped d
    → let d' = submit_all us d in
      IsStamped d' × (written d'.calls ≡ reverse (map (λ u. u.bytes) us) ++ written d.calls)
unfolding submit_all
submit_all-IsStamped [] limit d timely small room stamped = (stamped, refl)
submit_all-IsStamped (u ∷ us) limit d timely small room stamped =
    let (s, below, w) = submit-IsStamped u limit d timely.0 timely.1 small (omega arith) stamped in
    let (s', w') =
      submit_all-IsStamped us (limit + 1000) _
        (Timely-later limit (limit + 1000) us (omega arith) timely.2) below (omega arith) s in
    (s', simp (w', w, list_laws))
