-- ===== src/Aml/Parameters.antt =====
-- The parameters of the decoder that `aml_setup` of src/aml.c computes before it calls the decoder.
use amldigital_fpv.Prelude.{
  ℕ, suc, zero, ◌+◌, ◌-◌, ◌/◌, Bool, true, false, not, ◌&&◌, ◌||◌, List, ◌++◌, Option, none, some,
  ltb, leb, ◌==◌, if◌then◌else◌,
}
use amldigital_fpv.Prelude.Int.{ℤ, pos, negsuc, ltb_ℤ, eqb_ℤ, to_signed, to_unsigned, ◌*ℤ◌}
use amldigital_fpv.Text.{bytes}
use amldigital_fpv.Aml.Front.{
  vformat_h264, vformat_h264_4k2k, vformat_hevc, vformat_av1, write_sysfs, allocate_config,
  free_config, Machine, Front, log, line,
}

-- An `int` that a product overflows: its low 32 bits.
unfoldable pub mul_int : ℤ → ℤ → ℤ
unfolding ◌*ℤ◌
mul_int a b = to_signed 31 (to_unsigned 32 (a *ℤ b))

-- `90000 / redrawRate`, which rounds towards 0; there is no result for the rate 0.
unfoldable pub frame_ticks : ℤ → Option ℤ
frame_ticks (pos zero) = none
frame_ticks (pos (suc r)) = some (pos (90000 / suc r))
frame_ticks (negsuc r) = let q = 90000 / suc r in some (if q == 0 then pos 0 else negsuc (q - 1))

-- Kernels before 3.14, at 1080p.
unfoldable pub needs_ucode : Option (ℕ × ℕ) → ℤ → ℤ → Bool
needs_ucode none width height = false
needs_ucode (some (major, minor)) width height =
    not (ltb 3 major || (major == 3 && leb 14 minor))
    && eqb_ℤ width (pos 1920)
    && eqb_ℤ height (pos 1080)

unfoldable pub low_latency_cfg : List ℕ
low_latency_cfg =
    bytes "parm_v4l_low_latency_mode:1;"
    ++ bytes "parm_v4l_buffer_margin:1;"
    ++ bytes "parm_enable_fence:0;"
    ++ bytes "parm_fence_usage:0;"
    ++ bytes "hevc_double_write_mode:0;"

-- The settings before the format is looked at.
unfoldable pub set_modes : ℤ → ℤ → ℤ → Front → Front
unfolding log
set_modes frame_path stream_type dec_mode s =
    log (write_sysfs (bytes "/sys/class/video/disable_video") (line (bytes "0"))) (record s {
      codec = record s.codec {
        has_video = true;
        noblock = true;
        frame_stream = not (eqb_ℤ stream_type (pos 0));
        param = 0;
        frame_mode = eqb_ℤ dec_mode (pos 1);
        amvideo = eqb_ℤ frame_path (pos 1);
      };
    })

unfoldable pub set_h264 : Machine → ℤ → ℤ → Front → Front
unfolding needs_ucode
set_h264 machine width height s =
    if ltb_ℤ (pos 1920) width || ltb_ℤ (pos 1080) height
    then record s { codec = record s.codec { video_type = some vformat_h264_4k2k } }
    else record s {
      codec = record s.codec {
        video_type = some vformat_h264;
        param = if needs_ucode machine.release width height then 8 else s.codec.param;
      };
    }

-- `if (codecParam.config) { free(…); … }`
unfoldable pub drop_config : Front → Front
unfolding log
drop_config s = elim s.codec.config [
  | none ↦ s
  | some text ↦ log free_config (record s { codec = record s.codec { config = none } })
]

unfoldable pub set_h265 : Machine → Front → Front
unfolding log low_latency_cfg
set_h265 machine s =
    let s' = drop_config (record s { codec = record s.codec { video_type = some vformat_hevc } }) in
    if machine.strdup
    then log allocate_config
        (record s' { codec = record s'.codec { config = some low_latency_cfg } })
    else s'

unfoldable pub set_av1 : Front → Front
set_av1 s = record s { codec = record s.codec { video_type = some vformat_av1 } }

-- The branches on `videoFormat`: none for one that is not supported.
unfoldable pub set_format : Machine → ℤ → ℤ → ℤ → Front → Option Front
set_format machine video_format width height s =
    if eqb_ℤ video_format (pos 1)
    then some (set_h264 machine width height s)
    else if eqb_ℤ video_format (pos 0)
    then some (set_h265 machine s)
    else if machine.has_av1 && eqb_ℤ video_format (pos 2)
    then some (set_av1 s)
    else none

-- `SYNC_OUTSIDE` is 2: the bit is set, which is not set before.
unfoldable pub set_sysinfo : ℤ → ℤ → ℤ → ℤ → Front → Front
unfolding mul_int
set_sysinfo width height ticks buf_level s = record s {
  codec = record s.codec {
    width = width;
    height = height;
    rate = ticks;
    param = s.codec.param + 2;
    vbuf_size = mul_int (mul_int width height) buf_level;
  };
}
