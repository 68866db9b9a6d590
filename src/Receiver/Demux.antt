-- ===== src/Receiver/Demux.antt =====
-- `loop_read_socket` of src/gstrtpreceiver.cpp: the packets of the socket, for the decoder's
-- pipeline or for the audio receiver.
pub mod Buffers
pub mod Held
mod Samples
use amldigital_fpv.Prelude.{
  ℕ, ◌%◌, ◌<◌, ◌≡◌, Bool, true, false, not, ◌&&◌, List, [], ◌∷◌, ◌++◌, leb, ◌==◌, if◌then◌else◌,
  arith, length, length-drop, length-take, take-drop, drop, take, Bool-cases, inl, inr,
}
use amldigital_fpv.Codec.{VideoCodec, is_h264}

-- Where a packet goes.
pub data Target : Type 0 where
  nowhere : Target
  to_audio : List ℕ → Target
  to_pipeline : List ℕ → Target

-- `RTP_HEADER_LEN`
abbrev pub header_length : ℕ
header_length = 12

-- The low 7 bits of the second byte.
unfoldable pub payload_type : List ℕ → ℕ
payload_type [] = 0
payload_type (a ∷ []) = 0
payload_type (a ∷ b ∷ rest) = b % 128

-- `video_pt`
unfoldable pub video_payload_type : VideoCodec → ℕ
video_payload_type codec = if is_h264 codec then 96 else 97

-- What is done with the bytes that `recv` gives, where it gives any; `audio` is whether there is a
-- callback.
unfoldable pub demux : ℕ → Bool → List ℕ → Target
unfolding payload_type
demux video_pt audio packet =
    if leb (length packet) header_length
    then nowhere
    else if not (payload_type packet == video_pt)
    then (if payload_type packet == 98 && audio
        then to_audio (drop header_length packet)
        else nowhere)
    else to_pipeline packet

-- What a round of the loop finds: nothing to read in time, no buffer, no bytes, or a packet, with
-- whether the pipeline takes it.
pub data Round : Type 0 where
  nothing : Round
  no_buffer : Round
  packet : List ℕ → Bool → Round

-- The packets that the pipeline was offered and those that the audio receiver got, in their order.
pub record Passed : Type 0 where
  pub video : List (List ℕ)
  pub audio : List (List ℕ)

unfoldable pub pass : Target → Passed → Passed
pass nowhere p = p
pass (to_audio payload) p = record p { audio = p.audio ++ (payload ∷ []) }
pass (to_pipeline bytes) p = record p { video = p.video ++ (bytes ∷ []) }

-- The pipeline refuses a packet: the loop is left.
unfoldable pub refused : Target → Bool → Bool
refused nowhere ok = false
refused (to_audio payload) ok = false
refused (to_pipeline bytes) ok = not ok

unfoldable pub loop_read_socket : ℕ → Bool → List Round → Passed → Passed
loop_read_socket video_pt audio [] p = p
loop_read_socket video_pt audio (nothing ∷ rounds) p = loop_read_socket video_pt audio rounds p
loop_read_socket video_pt audio (no_buffer ∷ rounds) p = loop_read_socket video_pt audio rounds p
loop_read_socket video_pt audio (packet bytes ok ∷ rounds) p =
    let target = demux video_pt audio bytes in
    let rest = loop_read_socket video_pt audio rounds (pass target p) in
    if refused target ok then pass target p else rest

-- Every member holds for a predicate.
abbrev pub Every : (List ℕ → Type 0) → List (List ℕ) → Type 0
Every P [] = Unit
Every P (x ∷ xs) = P x × Every P xs

-- A packet of the pipeline: longer than the header, with the type of the video.
abbrev pub IsVideo : ℕ → List ℕ → Type 0
IsVideo video_pt bytes = (12 < length bytes) × (payload_type bytes ≡ video_pt)

-- Something is behind the header.
abbrev pub IsPayload : List ℕ → Type 0
IsPayload payload = 0 < length payload

pub record IsSorted (video_pt : ℕ) (p : Passed) : Type 0 where
  pub video : Every (IsVideo video_pt) p.video
  pub audio : Every IsPayload p.audio

Every-append :
    (P : List ℕ → Type 0) (xs : List (List ℕ)) (x : List ℕ)
    → Every P xs
    → P x
    → Every P (xs ++ (x ∷ []))
Every-append P [] x e p = (p, tt)
Every-append P (y ∷ ys) x e p = (e.0, Every-append P ys x e.1 p)

abbrev IsFit : ℕ → Target → Type 0
IsFit video_pt nowhere = Unit
IsFit video_pt (to_audio payload) = IsPayload payload
IsFit video_pt (to_pipeline bytes) = IsVideo video_pt bytes

demux-IsFit :
    (video_pt : ℕ) (audio : Bool) (bytes : List ℕ) → IsFit video_pt (demux video_pt audio bytes)
unfolding demux
demux-IsFit video_pt audio bytes = elim (Bool-cases (leb (length bytes) 12)) [
  | inl short ↦ rw short tt
  | inr long ↦ elim (Bool-cases (payload_type bytes == video_pt)) [
    | inl video ↦ rw (long, video) (ground arith)
    | inr other ↦ elim (Bool-cases (payload_type bytes == 98 && audio)) [
      | inl sound ↦ rw (long, other, sound) (ground (arith, length-drop 12 bytes))
      | inr neither ↦ rw (long, other, neither) tt
    ]
  ]
]

pass-IsSorted :
    (video_pt : ℕ) (t : Target) (p : Passed)
    → IsFit video_pt t
    → IsSorted video_pt p
    → IsSorted video_pt (pass t p)
unfolding pass
pass-IsSorted video_pt nowhere p f s = s
pass-IsSorted video_pt (to_audio payload) p f s = record {
  video = s.video;
  audio = Every-append IsPayload p.audio payload s.audio f;
}
pass-IsSorted video_pt (to_pipeline bytes) p f s = record {
  video = Every-append (IsVideo video_pt) p.video bytes s.video f;
  audio = s.audio;
}

-- Where it was so before: whatever comes to the socket, the pipeline gets whole packets of the type
-- of the video only, each longer than the header, and the audio receiver only payloads that hold
-- something.
pub loop_read_socket-IsSorted :
    (video_pt : ℕ) (audio : Bool) (rounds : List Round) (p : Passed)
    → IsSorted video_pt p
    → IsSorted video_pt (loop_read_socket video_pt audio rounds p)
unfolding loop_read_socket
loop_read_socket-IsSorted video_pt audio [] p s = s
loop_read_socket-IsSorted video_pt audio (nothing ∷ rounds) p s =
    loop_read_socket-IsSorted video_pt audio rounds p s
loop_read_socket-IsSorted video_pt audio (no_buffer ∷ rounds) p s =
    loop_read_socket-IsSorted video_pt audio rounds p s
loop_read_socket-IsSorted video_pt audio (packet bytes ok ∷ rounds) p s =
    let now = pass-IsSorted video_pt _ p (demux-IsFit video_pt audio bytes) s in
    elim (Bool-cases (refused (demux video_pt audio bytes) ok)) [
      | inl left ↦ rw left now
      | inr on ↦ rw on (loop_read_socket-IsSorted video_pt audio rounds _ now)
    ]

-- The audio's type is never taken for the video's: with a callback, a packet of type 98 that is
-- longer than the header goes to the audio receiver, whatever the codec, as the bytes behind the
-- header.
demux-to_audio :
    (codec : VideoCodec) (bytes : List ℕ)
    → payload_type bytes ≡ 98
    → 12 < length bytes
    → (header : List ℕ) × (payload : List ℕ) × (demux (video_payload_type codec) true bytes
        ≡ to_audio payload)
      × (bytes ≡ header ++ payload)
      × (length header ≡ 12)
unfolding demux video_payload_type
demux-to_audio codec bytes sound long = (
  take 12 bytes,
  drop 12 bytes,
  ground arith,
  take-drop 12 bytes,
  length-take 12 bytes (omega arith),
)
