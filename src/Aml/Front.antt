-- ===== src/Aml/Front.antt =====
-- The state of src/aml.c before the first frame: `codecParam` and the other globals, with the calls
-- that the setup and the cleanup make.
use amldigital_fpv.Prelude.{ℕ, Bool, List, [], ◌∷◌, ◌++◌, Option}
use amldigital_fpv.Prelude.Int.{ℤ}

pub data VideoType : Type 0 where
  vformat_h264 : VideoType
  vformat_h264_4k2k : VideoType
  vformat_hevc : VideoType
  vformat_av1 : VideoType

-- `codecParam`: `frame_stream`, `frame_mode` and `amvideo` tell the two values of `stream_type`,
-- `dec_mode` and `video_path` apart. `am_sysinfo.format` goes with `video_type`.
pub record CodecPara : Type 0 where
  pub has_video : Bool
  pub noblock : Bool
  pub frame_stream : Bool
  pub frame_mode : Bool
  pub amvideo : Bool
  pub video_type : Option VideoType
  pub width : ℤ
  pub height : ℤ
  pub rate : ℤ
  pub param : ℕ
  pub vbuf_size : ℤ
  pub config : Option (List ℕ)

pub data DecoderSetup : Type 0 where
  codec_init : DecoderSetup
  codec_set_freerun_mode : ℕ → DecoderSetup
  codec_set_syncenable : ℕ → DecoderSetup
  codec_set_video_delay_limited_ms : ℕ → DecoderSetup
  codec_disable_slowsync : ℕ → DecoderSetup
  codec_set_cntl_avthresh : ℕ → DecoderSetup

pub data Call : Type 0 where
  write_sysfs : List ℕ → List ℕ → Call
  allocate_config : Call
  free_config : Call
  decoder : DecoderSetup → Call
  open_video : Call
  create_thread : Bool → Call
  set_done : Call
  join_thread : Call
  close_video : Call
  close_codec : Call
  allocate_packet : ℕ → Call
  free_packet : Call

-- The answers: the kernel's version where `sscanf` reads one, whether the library knows AV1,
-- whether `strdup` finds memory, the decoder's results, what `read_file` reads of the map of video
-- paths where it can be read, whether the video device opens, and whether a thread is created.
pub record Machine : Type 0 where
  pub release : Option (ℕ × ℕ)
  pub has_av1 : Bool
  pub strdup : Bool
  pub decoder_result : DecoderSetup → ℤ
  pub vfm_map : Option (List ℕ)
  pub opens_video : Bool
  pub creates_thread : Bool

-- The globals of the file. `video_open` is whether `videoFd` is a descriptor, `thread` whether
-- `displayThread` is a thread that was created and not joined.
pub record Front : Type 0 where
  pub codec : CodecPara
  pub video_open : Bool
  pub thread : Bool
  pub is_done : Bool
  pub pkt_buf_size : ℕ
  pub calls : List Call

unfoldable pub log : Call → Front → Front
log c s = record s { calls = c ∷ s.calls }

-- A text with the line's end behind it.
abbrev pub line : List ℕ → List ℕ
line text = text ++ 10 ∷ []
