-- ===== src/Receiver/Demux/Held.antt =====
-- The buffers of the socket's reader are used as GStreamer asks, and carry what Receiver/Demux says.
use amldigital_fpv.Prelude.{ℕ, ◌≡◌, refl, Bool, true, List, [], ◌∷◌, arith, length}
use amldigital_fpv.Receiver.Demux.{demux, pass, refused, loop_read_socket}
use amldigital_fpv.Receiver.Demux.Buffers.{
  acquire_buffer, map_buffer, recv, ReadCalls, Reading, not_ready, not_acquired, not_mapped,
  received, return_buffer, read_other, read_packet, read_round, read_socket, free, filled,
  after_call, held, passed_on, outline, outlines,
}

module _ (video_pt : ℕ) (audio : Bool) where
  read_packet-held :
      (bytes : List ℕ) (ok : Bool) (calls : ReadCalls)
      → held calls ≡ filled (length bytes)
      → held (read_packet video_pt audio bytes ok calls).0 ≡ free
  unfolding read_packet read_other return_buffer held after_call
  read_packet-held bytes ok calls h = ground (arith, h)

  read_round-held :
      (r : Reading) (calls : ReadCalls)
      → held calls ≡ free
      → held (read_round video_pt audio r calls).0 ≡ free
  unfolding read_round held after_call
  read_round-held not_ready calls h = h
  read_round-held not_acquired calls h = rw h refl
  read_round-held not_mapped calls h = rw h refl
  read_round-held (received bytes ok) calls h = read_packet-held bytes ok _ (rw h refl)

  read_socket-held :
      (rs : List Reading) (calls : ReadCalls)
      → held calls ≡ free
      → held (read_socket video_pt audio rs calls) ≡ free
  unfolding read_socket
  read_socket-held [] calls h = h
  read_socket-held (r ∷ rs) calls h =
      let now = read_round-held r calls h in
      ground (arith, now, read_socket-held rs (read_round video_pt audio r calls).0 now)

  read_packet-passed :
      (bytes : List ℕ) (ok : Bool) (calls : ReadCalls)
      → let (calls', left) = read_packet video_pt audio bytes ok calls in
        let target = demux video_pt audio bytes in
        (passed_on calls' ≡ pass target (passed_on calls)) × (left ≡ refused target ok)
  unfolding read_packet read_other return_buffer passed_on demux pass refused
  read_packet-passed bytes ok calls = ground arith

  read_socket-passed :
      (rs : List Reading) (calls : ReadCalls)
      → passed_on (read_socket video_pt audio rs calls)
        ≡ loop_read_socket video_pt audio (outlines rs) (passed_on calls)
  unfolding read_socket read_round outlines outline loop_read_socket passed_on
  read_socket-passed [] calls = refl
  read_socket-passed (not_ready ∷ rs) calls = read_socket-passed rs calls
  read_socket-passed (not_acquired ∷ rs) calls = read_socket-passed rs _
  read_socket-passed (not_mapped ∷ rs) calls = read_socket-passed rs _
  read_socket-passed (received bytes ok ∷ rs) calls =
      let before = recv bytes ∷ map_buffer true ∷ acquire_buffer true ∷ calls in
      let now = read_packet-passed bytes ok before in
      let rest = read_socket-passed rs (read_packet video_pt audio bytes ok before).0 in
      ground (arith, now.0, now.1, rest)

  -- Whatever comes to the socket and whatever the pool and the pipeline answer: each buffer is
  -- mapped, written, read, unmapped, and pushed or given back in the order that GStreamer asks, and
  -- one that is pushed was resized to the bytes that came; the loop keeps none, and what it passes on
  -- is what the sorting of the packets says.
  pub read_socket-Refines :
      (rs : List Reading)
      → let calls = read_socket video_pt audio rs [] in
        (held calls ≡ free)
        × (passed_on calls
            ≡ loop_read_socket video_pt audio (outlines rs) (record { video = []; audio = [] }))
  unfolding held passed_on
  read_socket-Refines rs = (read_socket-held rs [] refl, read_socket-passed rs [])
