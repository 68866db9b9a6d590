-- ===== src/Receiver/Audio/Samples.antt =====
-- The way from the socket to the output at concrete packets.
use amldigital_fpv.Prelude.{ℕ, ◌≤◌, ◌≡◌, refl, true, List, [], ◌∷◌, ◌++◌, length, replicate, arith}
use mathlib.Core.List.{Sublist}
use amldigital_fpv.Receiver.Demux.{
  nothing, packet, loop_read_socket, pass, refused, demux, payload_type,
}
use amldigital_fpv.Receiver.Audio.{Decode, new}
use amldigital_fpv.Receiver.Audio.Playing.{Opening, play_loop}
use amldigital_fpv.Receiver.Audio.Playing.Order.{sizes_written, sizes}
use amldigital_fpv.Receiver.Audio.Heard.{
  Sounding, reads, plays_next, heard, rounds_of, nothing_passed, heard-played, heard-all,
}

abbrev of_type : ℕ → List ℕ
of_type pt = 128 ∷ pt ∷ replicate 10 0 ++ (7 ∷ 8 ∷ [])

abbrev a_while : List Sounding
a_while =
    reads nothing
    ∷ reads (packet (of_type 98) true)
    ∷ reads (packet (of_type 97) true)
    ∷ plays_next
    ∷ reads (packet (of_type 98) true)
    ∷ []

abbrev samples : Decode
samples before payload = 960

abbrev opened : Opening
opened = record { decoder = true; opus_ok = true; output = true }

heard-played_example :
    let (a', calls) = play_loop opened samples (heard 97 a_while) new in
    (ps : List (List ℕ)) × Sublist ps
      (loop_read_socket 97 true (rounds_of a_while) nothing_passed).audio
    × (sizes_written calls ++ sizes samples a'.decoded a'.queue ≡ sizes samples [] ps)
heard-played_example = heard-played 97 samples a_while new refl

a_while-audio :
    (loop_read_socket 97 true (rounds_of a_while) nothing_passed).audio
    ≡ (7 ∷ 8 ∷ []) ∷ (7 ∷ 8 ∷ []) ∷ []
unfolding loop_read_socket rounds_of pass refused demux payload_type
a_while-audio = refl

a_while-few : length (loop_read_socket 97 true (rounds_of a_while) nothing_passed).audio ≤ 257
a_while-few = rw a_while-audio (omega arith)

heard-all_example :
    let (a', calls) = play_loop opened samples (heard 97 a_while) new in
    sizes_written calls ++ sizes samples a'.decoded a'.queue
    ≡ sizes samples [] (loop_read_socket 97 true (rounds_of a_while) nothing_passed).audio
heard-all_example = heard-all 97 samples a_while new refl a_while-few
