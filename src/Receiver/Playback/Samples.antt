-- ===== src/Receiver/Playback/Samples.antt =====
-- The playback of a pipeline that takes everything.
use amldigital_fpv.Prelude.{List, ℕ, ◌≡◌, refl, true, false, [], ◌∷◌, some, arith}
use amldigital_fpv.Prelude.Int.{pos, negsuc}
use amldigital_fpv.Dvr.Samples.{whole}
use amldigital_fpv.Receiver.Samples.{no_sockets, at_work}
use amldigital_fpv.Receiver.Playback.{
  Pipeline, Player, seek_place, new_player, wind_rate, fast_forward, resume, skip_duration, Use,
  forwards, rewinds, pauses, resumes, skips, restarts, use_player, use_all,
}
use amldigital_fpv.Receiver.Playback.Rates.{resume-fast_forward}
use amldigital_fpv.Receiver.Playback.Skips.{Sends, use_all-Sends, skip_duration-place}

-- Seven seconds of it have played.
abbrev willing : Pipeline ℕ
willing = record {
  send_event = λ h. true;
  state_change = λ h. true;
  query_position = λ h. some (pos 7000000000);
}

abbrev player : Player ℕ
player = new_player whole at_work

abbrev fast : Player ℕ
fast = record player { playback_rate = 4 }

-- Paused at the rate 4.
abbrev paused : Player ℕ
paused = record player { playback_rate = 4; is_paused = true; pre_pause_rate = 4 }

resume-fast_forward_example :
    let q = fast_forward whole willing 2 paused in
    (q.playback_rate ≡ wind_rate whole 2)
    × ((resume whole willing q).playback_rate ≡ paused.pre_pause_rate)
    × ((resume whole willing q).is_paused ≡ false)
resume-fast_forward_example =
    resume-fast_forward whole willing 2 paused refl refl refl (λ h. refl) (λ h. refl)

abbrev some_uses : List (Use ℕ)
some_uses = forwards 8 ∷ pauses ∷ skips (negsuc 99) ∷ resumes ∷ restarts ∷ []

use_all-Sends_example :
    let q = use_all whole no_sockets willing some_uses player in
    Sends whole (rewinds 4) q (use_player whole no_sockets willing (rewinds 4) q)
use_all-Sends_example =
    use_all-Sends whole no_sockets willing some_uses (rewinds 4) player refl (ground arith)

skip_duration-place_example :
    let forth = skip_duration whole willing (pos 1000) player in
    let back = skip_duration whole willing (negsuc 999) player in
    (forth.calls ≡ seek_place 1 (pos 8000000000) true ∷ player.calls)
    × (back.calls ≡ seek_place 1 (pos 6000000000) true ∷ player.calls)
    × (forth.playback_rate ≡ player.playback_rate)
    × (back.playback_rate ≡ player.playback_rate)
skip_duration-place_example =
    skip_duration-place whole willing 7000000000 999 player refl refl (omega arith)
