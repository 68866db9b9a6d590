-- ===== src/Codec.antt =====
-- `VideoCodec` of src/gstrtpreceiver.h, the codec that every component is told of, and its reading
-- from a name.
use text.Mathlib.Text.{◌==◌}
use Prim.Native.String.{String}
use amldigital_fpv.Prelude.{Bool, true, false, if◌then◌else◌}

pub data VideoCodec : Type 0 where
  unknown h264 h265 : VideoCodec

-- `strcmp` of the whole name.
unfoldable pub video_codec : String → VideoCodec
video_codec str = if str == "h264" then h264 else if str == "h265" then h265 else unknown

unfoldable pub is_h265 : VideoCodec → Bool
is_h265 h265 = true
is_h265 _ = false

unfoldable pub is_h264 : VideoCodec → Bool
is_h264 h264 = true
is_h264 _ = false
