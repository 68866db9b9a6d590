-- ===== src/Aml/Setup.antt =====
-- `aml_setup` and `aml_cleanup` of src/aml.c, with `ensure_buf_size` of src/util.c: the
-- decoder's calls up to the first that fails, the display thread, and what is given back.
-- The log messages are left out, and the arguments `context` and `drFlags`, which nothing reads.
pub mod Order
pub mod Tidy
use amldigital_fpv.Prelude.{
  ℕ, ◌*◌, Bool, true, false, not, List, [], ◌∷◌, Option, none, some, leb, if◌then◌else◌,
}
use amldigital_fpv.Prelude.Int.{ℤ, pos, negsuc, eqb_ℤ}
use amldigital_fpv.Text.{bytes, contains, c_string}
use amldigital_fpv.Aml.Front.{
  DecoderSetup, codec_init, codec_set_freerun_mode, codec_set_syncenable,
  codec_set_video_delay_limited_ms, codec_disable_slowsync, codec_set_cntl_avthresh, write_sysfs,
  decoder, open_video, create_thread, set_done, join_thread, close_video, close_codec,
  allocate_packet, free_packet, Machine, Front, log, line,
}
use amldigital_fpv.Aml.Parameters.{frame_ticks, set_modes, drop_config, set_format, set_sysinfo}

abbrev pub decoder_setup : List DecoderSetup
decoder_setup =
    codec_init
    ∷ codec_set_freerun_mode 1
    ∷ codec_set_syncenable 0
    ∷ codec_set_video_delay_limited_ms 0
    ∷ codec_disable_slowsync 1
    ∷ codec_set_cntl_avthresh 0
    ∷ []

-- One decoder call after the other, up to the first that fails: whether none did.
unfoldable pub set_decoder : Machine → List DecoderSetup → Front → Bool × Front
unfolding log
set_decoder machine [] s = (true, s)
set_decoder machine (c ∷ cs) s =
    let rest = set_decoder machine cs (log (decoder c) s) in
    if eqb_ℤ (machine.decoder_result c) (pos 0) then rest else (false, log (decoder c) s)

abbrev pub tuning : List (List ℕ × List ℕ)
tuning =
    (bytes "/sys/class/video/video_delay_val", line (bytes "0"))
    ∷ (bytes "/sys/class/video/vsync_pts_inc_upint", line (bytes "2000"))
    ∷ (bytes "/sys/class/video/show_first_frame_nosync", line (bytes "1"))
    ∷ (bytes "/sys/class/video/slowsync_repeat_enable", line (bytes "0"))
    ∷ (bytes "/sys/class/video/vframe_walk_delay", line (bytes "0"))
    ∷ (bytes "/sys/class/video/last_required_total_delay", line (bytes "0"))
    ∷ (bytes "/sys/class/video/hack_novsync", line (bytes "1"))
    ∷ (bytes "/sys/class/video/hold_video", line (bytes "0"))
    ∷ (bytes "/sys/class/video/freerun_mode", line (bytes "1"))
    ∷ (bytes "/sys/class/video/show_first_picture", line (bytes "1"))
    ∷ (bytes "/sys/class/video/enable_hdmi_delay_normal_check", line (bytes "0"))
    ∷ (bytes "/sys/class/video/hdmin_delay_start", line (bytes "0"))
    ∷ (bytes "/sys/class/video/hdmin_delay_max_ms", line (bytes "0"))
    ∷ (bytes "/sys/class/video/free_keep_buffer", line (bytes "1"))
    ∷ (bytes "/sys/class/video/hscaler_8tap_en", line (bytes "0"))
    ∷ (bytes "/sys/class/video/pre_hscaler_ntap_en", line (bytes "0"))
    ∷ (bytes "/sys/class/video/pre_vscaler_ntap_en", line (bytes "0"))
    ∷ (bytes "/sys/class/video/pip_pre_hscaler_ntap_en", line (bytes "0"))
    ∷ (bytes "/sys/class/amhdmitx/amhdmitx0/frac_rate_policy", line (bytes "0"))
    ∷ (bytes "/sys/class/amhdmitx/amhdmitx0/allm_mode", line (bytes "1"))
    ∷ (bytes "/sys/class/amhdmitx/amhdmitx0/contenttype_mode", line (bytes "1"))
    ∷ (bytes "/sys/module/rdma/parameters/enable", line (bytes "0,0"))
    ∷ []

unfoldable pub tune : List (List ℕ × List ℕ) → Front → Front
unfolding log
tune [] s = s
tune ((path, value) ∷ rest) s = tune rest (log (write_sysfs path value) s)

-- `bool ensure_buf_size(void **buf, size_t *buf_size, size_t required_size)`: the program ends where
-- there is no memory.
unfoldable pub ensure_buf_size : ℕ → Front → Front
unfolding log
ensure_buf_size required_size s =
    if leb required_size s.pkt_buf_size
    then s
    else log (allocate_packet required_size) (record s { pkt_buf_size = required_size })

-- `pthread_create`, whose result is not looked at.
unfoldable pub create_display : Machine → Front → Front
unfolding log
create_display machine s =
    log (create_thread machine.creates_thread) (record s { thread = machine.creates_thread })

-- From the reading of the map of video paths on.
unfoldable pub start_display : Machine → Front → ℤ × Front
unfolding log ensure_buf_size create_display
start_display machine s = elim machine.vfm_map [
  | none ↦ (pos 0, ensure_buf_size (256 * 1024) s)
  | some text ↦
      if not (contains (10 ∷ []) (c_string text))
      then (pos 0, ensure_buf_size (256 * 1024) s)
      else if not machine.opens_video
      then (negsuc 2, record s { video_open = false })
      else (
        pos 0,
        ensure_buf_size (256 * 1024)
            (create_display machine (log open_video (record s { video_open = true }))),
      )
]

-- From `codec_init` on.
unfoldable pub start_decoder : Machine → Front → ℤ × Front
start_decoder machine s =
    let (ok, s') = set_decoder machine decoder_setup s in
    if ok then start_display machine (tune tuning s') else (negsuc 1, s')

-- There is no result where the program is ended by the division by 0.
unfoldable pub aml_setup : Machine → ℤ → ℤ → ℤ → ℤ → ℤ → ℤ → ℤ → ℤ → Front → Option (ℤ × Front)
aml_setup machine video_format width height redraw_rate frame_path stream_type buf_level dec_mode
      s =
    let s1 = set_modes frame_path stream_type dec_mode s in
    elim (set_format machine video_format width height s1) [
      | none ↦ some (negsuc 0, s1)
      | some s2 ↦ elim (frame_ticks redraw_rate) [
        | none ↦ none
        | some ticks ↦ some (start_decoder machine (set_sysinfo width height ticks buf_level s2))
      ]
    ]

-- `done = true`, which the display thread looks at.
unfoldable pub set_is_done : Front → Front
unfolding log
set_is_done s = log set_done (record s { is_done = true })

-- `pthread_join`: where no thread was created, what it does is not defined.
unfoldable pub join_display : Front → Front
unfolding log
join_display s = log join_thread (record s { thread = false })

-- `if (videoFd >= 0) …`
unfoldable pub stop_display : Front → Front
unfolding log set_is_done join_display
stop_display s = if s.video_open then log close_video (join_display (set_is_done s)) else s

unfoldable pub aml_cleanup : Front → Front
unfolding log
aml_cleanup s = log free_packet (log close_codec (stop_display (drop_config s)))
