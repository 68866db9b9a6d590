-- ===== src/Receiver/Pipeline.antt =====
-- The texts of the pipelines that src/gstrtpreceiver.cpp gives to GStreamer. A text that is none is
-- one whose making fails an assertion; they are on in the build that is modelled.
use amldigital_fpv.Prelude.{
  ℕ, ◌≡◌, ◌≢◌, refl, Bool, true, false, not, ◌&&◌, ◌||◌, List, [], ◌++◌, Option, none, some,
  if◌then◌else◌, arith, Bool-cases, inl, inr,
}
use mathlib.Core.Option
use amldigital_fpv.Prelude.Int.{ℤ, pos, eqb_ℤ}
use amldigital_fpv.Text.{bytes, starts_with, contains, contains-front, contains-behind}
use amldigital_fpv.Text.Decimal.{show, show_ℕ}
use amldigital_fpv.Codec.{VideoCodec, unknown, h264, h265, is_h264}
use amldigital_fpv.Receiver.Demux.{video_payload_type}

unfoldable pub gst_create_rtp_caps : VideoCodec → List ℕ
gst_create_rtp_caps unknown = []
gst_create_rtp_caps h264 =
    bytes
      "caps=\"application/x-rtp, media=(string)video, encoding-name=(string)H264, payload=(int)96\""
gst_create_rtp_caps h265 =
    bytes
      "caps=\"application/x-rtp, media=(string)video, encoding-name=(string)H265, payload=(int)97, clock-rate=(int)90000\""

unfoldable pub create_rtp_depacketize_for_codec : VideoCodec → Option (List ℕ)
create_rtp_depacketize_for_codec unknown = none
create_rtp_depacketize_for_codec h264 = some (bytes "rtph264depay ! ")
create_rtp_depacketize_for_codec h265 = some (bytes "rtph265depay ! ")

unfoldable pub create_parse_for_codec : VideoCodec → Option (List ℕ)
create_parse_for_codec unknown = none
create_parse_for_codec h264 = some (bytes "h264parse config-interval=-1 ! ")
create_parse_for_codec h265 = some (bytes "h265parse config-interval=-1  ! ")

abbrev align_str : ℤ → List ℕ
align_str alignment = if eqb_ℤ alignment (pos 1) then bytes "nal" else bytes "au"

abbrev out_caps : List ℕ → ℤ → List ℕ
out_caps media alignment =
    media
    ++ bytes ", stream-format=\"byte-stream\",alignment="
    ++ align_str alignment
    ++ bytes " ! "

unfoldable pub create_out_caps : VideoCodec → ℤ → Option (List ℕ)
create_out_caps unknown alignment = none
create_out_caps h264 alignment = some (out_caps (bytes "video/x-h264") alignment)
create_out_caps h265 alignment = some (out_caps (bytes "video/x-h265") alignment)

abbrev pub sink : List ℕ
sink = bytes " appsink drop=true name=out_appsink"

-- The source: the socket of the pipeline itself, or the element that the reader feeds.
unfoldable pub source : Bool → Bool → ℤ → VideoCodec → List ℕ
source unix_socket udp_appsrc port codec =
    if not unix_socket && not udp_appsrc
    then bytes "udpsrc buffer-size=5242880 port="
      ++ show port
      ++ bytes " "
      ++ gst_create_rtp_caps codec
      ++ bytes " ! "
    else bytes "appsrc name=appsrc " ++ gst_create_rtp_caps codec ++ bytes " ! "

infixl 55 ◌>>=◌
abbrev ◌>>=◌ : Option (List ℕ) → (List ℕ → Option (List ℕ)) → Option (List ℕ)
o >>= f = Option.bind o f

unfoldable pub construct_gstreamer_pipeline : Bool → Bool → ℤ → VideoCodec → ℤ → Option (List ℕ)
construct_gstreamer_pipeline unix_socket udp_appsrc port codec alignment = do
  depacketize ← create_rtp_depacketize_for_codec codec
  parse ← create_parse_for_codec codec
  caps ← create_out_caps codec alignment
  some (source unix_socket udp_appsrc port codec ++ depacketize ++ parse ++ caps ++ sink)

unfoldable pub construct_file_playback_pipeline : VideoCodec → ℤ → List ℕ → Option (List ℕ)
construct_file_playback_pipeline codec alignment file_path = do
  parse ← create_parse_for_codec codec
  caps ← create_out_caps codec alignment
  some (bytes "filesrc location=" ++ file_path ++ bytes " ! qtdemux ! " ++ parse ++ caps ++ sink)

-- The word is found in what a list of texts makes up, where it is found in the first of them.
abbrev end_word : List ℕ
end_word = bytes "name=out_appsink"

abbrev known : VideoCodec → Bool
known unknown = false
known _ = true

known-of : (codec : VideoCodec) → codec ≢ unknown → known codec ≡ true
known-of unknown k = absurd (k refl)
known-of h264 k = refl
known-of h265 k = refl

-- The number of the payload that the socket's reader lets through, as the caps name it.
abbrev payload_word : VideoCodec → List ℕ
payload_word codec = bytes "payload=(int)" ++ show_ℕ (video_payload_type codec)

sink-end_word : contains end_word sink ≡ true
unfolding contains starts_with
sink-end_word = refl

caps-payload_word :
    (codec : VideoCodec)
    → known codec ≡ true
    → contains (payload_word codec) (gst_create_rtp_caps codec) ≡ true
unfolding contains starts_with gst_create_rtp_caps video_payload_type show_ℕ is_h264
caps-payload_word unknown k = ground arith
caps-payload_word h264 k = refl
caps-payload_word h265 k = refl

source-payload_word :
    (unix udp : Bool) (port : ℤ) (codec : VideoCodec)
    → known codec ≡ true
    → contains (payload_word codec) (source unix udp port codec) ≡ true
unfolding source
source-payload_word unix udp port codec k =
    let word = payload_word codec in
    let behind : (front : List ℕ)
        → contains word (front ++ gst_create_rtp_caps codec ++ bytes " ! ") ≡ true =
      λ front.
        contains-front word (front ++ gst_create_rtp_caps codec) (bytes " ! ")
          (contains-behind word front (gst_create_rtp_caps codec) (caps-payload_word codec k)) in
    elim (Bool-cases (not unix && not udp)) [
      | inl own ↦
          rw own (behind (bytes "udpsrc buffer-size=5242880 port=" ++ show port ++ bytes " "))
      | inr fed ↦ rw fed (behind (bytes "appsrc name=appsrc "))
    ]

-- What stands between the source and the sink.
abbrev middle : VideoCodec → ℤ → List ℕ × List ℕ × List ℕ
middle codec alignment = elim codec [
  | unknown ↦ ([], [], [])
  | h264 ↦ (
    bytes "rtph264depay ! ",
    bytes "h264parse config-interval=-1 ! ",
    out_caps (bytes "video/x-h264") alignment,
  )
  | h265 ↦ (
    bytes "rtph265depay ! ",
    bytes "h265parse config-interval=-1  ! ",
    out_caps (bytes "video/x-h265") alignment,
  )
]

construct_gstreamer_pipeline-known :
    (unix udp : Bool) (port : ℤ) (codec : VideoCodec) (alignment : ℤ)
    → known codec ≡ true
    → let (depacketize, parse, caps) = middle codec alignment in
      construct_gstreamer_pipeline unix udp port codec alignment
      ≡ some (source unix udp port codec ++ depacketize ++ parse ++ caps ++ sink)
unfolding construct_gstreamer_pipeline create_rtp_depacketize_for_codec create_parse_for_codec
    create_out_caps Option.bind
construct_gstreamer_pipeline-known unix udp port unknown alignment k = ground arith
construct_gstreamer_pipeline-known unix udp port h264 alignment k = refl
construct_gstreamer_pipeline-known unix udp port h265 alignment k = refl

source-starts_with :
    (unix udp : Bool) (port : ℤ) (codec : VideoCodec) (a b c d : List ℕ)
    → starts_with (bytes "appsrc name=appsrc ") (source unix udp port codec ++ a ++ b ++ c ++ d)
      ≡ (unix || udp)
unfolding source starts_with
source-starts_with true udp port codec a b c d = refl
source-starts_with false true port codec a b c d = refl
source-starts_with false false port codec a b c d = refl

-- For the two codecs that the program selects, the pipeline of the stream has a text. It starts with
-- the element that the reader of the socket feeds exactly where there is such a reader; its caps name
-- the number of the payload that this reader lets through; and it has the sink that the frames are
-- pulled from.
pub construct_gstreamer_pipeline-feeds :
    (unix udp : Bool) (port : ℤ) (codec : VideoCodec) (alignment : ℤ)
    → codec ≢ unknown
    → (text : List ℕ) × (construct_gstreamer_pipeline unix udp port codec alignment ≡ some text)
      × (starts_with (bytes "appsrc name=appsrc ") text ≡ (unix || udp))
      × (contains (bytes "payload=(int)" ++ show_ℕ (video_payload_type codec)) text ≡ true)
      × (contains (bytes "name=out_appsink") text ≡ true)
construct_gstreamer_pipeline-feeds unix udp port codec alignment k =
    let (depacketize, parse, caps) = middle codec alignment in
    let head = source unix udp port codec in
    let word = payload_word codec in
    let chosen = known-of codec k in
    (
      head ++ depacketize ++ parse ++ caps ++ sink,
      construct_gstreamer_pipeline-known unix udp port codec alignment chosen,
      source-starts_with unix udp port codec depacketize parse caps sink,
      contains-front word (head ++ depacketize ++ parse ++ caps) sink (
          contains-front word (head ++ depacketize ++ parse) caps (
            contains-front word (head ++ depacketize) parse (
              contains-front word head depacketize
                (source-payload_word unix udp port codec chosen)))),
      contains-behind end_word (head ++ depacketize ++ parse ++ caps) sink sink-end_word,
    )
