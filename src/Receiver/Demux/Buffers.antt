-- ===== src/Receiver/Demux/Buffers.antt =====
-- The buffers of `loop_read_socket` and of its pool, in src/gstrtpreceiver.cpp: each call on a
-- buffer, in the order of the source.
use amldigital_fpv.Prelude.{
  ℕ, Bool, true, false, not, ◌&&◌, List, [], ◌∷◌, leb, ◌==◌, length, drop, if◌then◌else◌,
}
use amldigital_fpv.Text.{bytes}
use amldigital_fpv.Codec.{VideoCodec, is_h264}
use amldigital_fpv.Receiver.Demux.{
  to_audio, to_pipeline, header_length, payload_type, Round, nothing, no_buffer, packet, Passed,
  pass,
}

-- `setup_appsrc_buffer_pool`: buffers of `MAX_PACKET_SIZE` bytes, 10 at first and 20 at most, for
-- packets with this name of the encoding.
pub data PoolCall : Type 0 where
  new_pool : PoolCall
  get_config : PoolCall
  new_caps : List ℕ → PoolCall
  set_params : ℕ → ℕ → ℕ → PoolCall
  set_config : PoolCall
  unref_caps : PoolCall
  set_active : Bool → PoolCall
  unref_pool : PoolCall
  keep_pool : PoolCall

-- The calls in their order, and whether the source has a pool behind them: where the pool cannot be
-- made active it has none, and the start goes on.
unfoldable pub setup_appsrc_buffer_pool : VideoCodec → Bool → List PoolCall × Bool
setup_appsrc_buffer_pool codec active =
    let encoding = if is_h264 codec then bytes "H264" else bytes "H265" in
    let last = if active then keep_pool else unref_pool in
    (
      new_pool
          ∷ get_config
          ∷ new_caps encoding
          ∷ set_params 4096 10 20
          ∷ set_config
          ∷ unref_caps
          ∷ set_active active
          ∷ last
          ∷ [],
      active,
    )

-- The calls of a round; the Boolean is whether the call gives what it is asked for.
pub data ReadCall : Type 0 where
  acquire_buffer : Bool → ReadCall
  map_buffer : Bool → ReadCall
  recv : List ℕ → ReadCall
  audio_cb : List ℕ → ReadCall
  unmap_buffer : ReadCall
  resize_buffer : ℕ → ReadCall
  unref_buffer : ReadCall
  push_buffer : List ℕ → Bool → ReadCall

-- What a round of the loop meets: a socket that is not ready, no buffer of the pool, one that cannot
-- be mapped, or what `recv` gives, no bytes for an end or an error, and whether the pipeline takes
-- the buffer.
pub data Reading : Type 0 where
  not_ready : Reading
  not_acquired : Reading
  not_mapped : Reading
  received : List ℕ → Bool → Reading

-- The calls so far, the last in front.
abbrev pub ReadCalls : Type 0
ReadCalls = List ReadCall

unfoldable pub return_buffer : ReadCalls → ReadCalls
return_buffer calls = unref_buffer ∷ unmap_buffer ∷ calls

-- A packet that is not of the video.
unfoldable pub read_other : Bool → List ℕ → ReadCalls → ReadCalls
unfolding return_buffer
read_other audio bytes calls =
    if payload_type bytes == 98 && audio
    then return_buffer (audio_cb (drop header_length bytes) ∷ calls)
    else return_buffer calls

-- What `recv` gave is looked at; the second result is whether the loop is left.
unfoldable pub read_packet : ℕ → Bool → List ℕ → Bool → ReadCalls → ReadCalls × Bool
unfolding return_buffer read_other
read_packet video_pt audio bytes ok calls =
    if leb (length bytes) header_length
    then (return_buffer calls, false)
    else if not (payload_type bytes == video_pt)
    then (read_other audio bytes calls, false)
    else (push_buffer bytes ok ∷ resize_buffer (length bytes) ∷ unmap_buffer ∷ calls, not ok)

unfoldable pub read_round : ℕ → Bool → Reading → ReadCalls → ReadCalls × Bool
unfolding read_packet
read_round video_pt audio not_ready calls = (calls, false)
read_round video_pt audio not_acquired calls = (acquire_buffer false ∷ calls, false)
read_round video_pt audio not_mapped calls =
    (unref_buffer ∷ map_buffer false ∷ acquire_buffer true ∷ calls, false)
read_round video_pt audio (received bytes ok) calls =
    read_packet video_pt audio bytes ok (recv bytes ∷ map_buffer true ∷ acquire_buffer true ∷ calls)

unfoldable pub read_socket : ℕ → Bool → List Reading → ReadCalls → ReadCalls
unfolding read_round
read_socket video_pt audio [] calls = calls
read_socket video_pt audio (r ∷ rs) calls =
    let (calls', left) = read_round video_pt audio r calls in
    let rest = read_socket video_pt audio rs calls' in if left then calls' else rest

-- Who has the buffer of the round: nobody; the loop; the loop with its memory mapped, without bytes
-- or with so many of them; unmapped again with so many bytes; or with its size set to that number. No
-- call fits behind one that does not fit.
pub data Held : Type 0 where
  free : Held
  owned : Held
  mapped : Held
  filled : ℕ → Held
  unmapped : ℕ → Held
  sized : Held
  misused : Held

-- What GStreamer asks of the order of the calls, and the pipeline of a buffer: only an own buffer is
-- mapped, given back, resized or pushed; only a mapped one is written, read or unmapped; what is
-- pushed was resized to the bytes that `recv` gave; and a pushed buffer is not touched again.
unfoldable pub after_call : ReadCall → Held → Held
after_call (acquire_buffer ok) free = if ok then owned else free
after_call (map_buffer ok) owned = if ok then mapped else owned
after_call (recv bytes) mapped = filled (length bytes)
after_call (audio_cb payload) (filled n) = filled n
after_call unmap_buffer (filled n) = unmapped n
after_call (resize_buffer m) (unmapped n) = if m == n then sized else misused
after_call unref_buffer owned = free
after_call unref_buffer (unmapped n) = free
after_call (push_buffer bytes ok) sized = free
after_call call held = misused

unfoldable pub held : ReadCalls → Held
held [] = free
held (c ∷ cs) = after_call c (held cs)

-- The packets that were pushed and the payloads that the callback got, in their order.
unfoldable pub passed_on : ReadCalls → Passed
passed_on [] = record { video = []; audio = [] }
passed_on (push_buffer bytes ok ∷ cs) = pass (to_pipeline bytes) (passed_on cs)
passed_on (audio_cb payload ∷ cs) = pass (to_audio payload) (passed_on cs)
passed_on (acquire_buffer ok ∷ cs) = passed_on cs
passed_on (map_buffer ok ∷ cs) = passed_on cs
passed_on (recv bytes ∷ cs) = passed_on cs
passed_on (unmap_buffer ∷ cs) = passed_on cs
passed_on (resize_buffer n ∷ cs) = passed_on cs
passed_on (unref_buffer ∷ cs) = passed_on cs

-- A round without its calls.
unfoldable pub outline : Reading → Round
outline not_ready = nothing
outline not_acquired = no_buffer
outline not_mapped = no_buffer
outline (received bytes ok) = packet bytes ok

unfoldable pub outlines : List Reading → List Round
outlines [] = []
outlines (r ∷ rs) = outline r ∷ outlines rs
