-- ===== src/Receiver/Demux/Samples.antt =====
-- The socket's reader at concrete packets: one of the audio, one of the video, which is refused.
use amldigital_fpv.Prelude.{◌≡◌, refl, true, false, List, ℕ, [], ◌∷◌, replicate, ◌++◌}
use amldigital_fpv.Receiver.Demux.{Passed, loop_read_socket, pass, refused, demux, payload_type}
use amldigital_fpv.Receiver.Demux.Buffers.{
  Reading, not_ready, not_acquired, not_mapped, received, read_socket, free, held, passed_on,
  outlines, outline,
}
use amldigital_fpv.Receiver.Demux.Held.{read_socket-Refines}

abbrev of_type : ℕ → List ℕ
of_type pt = 128 ∷ pt ∷ replicate 10 0 ++ (7 ∷ 8 ∷ [])

abbrev readings : List Reading
readings =
    not_ready
    ∷ not_mapped
    ∷ received (of_type 98) true
    ∷ not_acquired
    ∷ received [] true
    ∷ received (of_type 225) false
    ∷ received (of_type 97) true
    ∷ []

abbrev none_passed : Passed
none_passed = record { video = []; audio = [] }

read_socket-Refines_example :
    let calls = read_socket 97 true readings [] in
    (held calls ≡ free)
    × (passed_on calls ≡ loop_read_socket 97 true (outlines readings) none_passed)
read_socket-Refines_example = read_socket-Refines 97 true readings

readings-passed :
    loop_read_socket 97 true (outlines readings) none_passed
    ≡ record { video = of_type 225 ∷ []; audio = (7 ∷ 8 ∷ []) ∷ [] }
unfolding loop_read_socket outlines outline pass refused demux payload_type
readings-passed = refl
