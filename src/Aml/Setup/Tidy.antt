-- ===== src/Aml/Setup/Tidy.antt =====
-- What the setup takes, the cleanup gives back.
use amldigital_fpv.Prelude.{
  tally, held, ℕ, suc, zero, ◌+◌, ◌≡◌, refl, Bool, true, false, List, [], ◌∷◌, Option, none, some,
  arith, ◌⊎◌, ◌*◌, ◌&&◌,
}
use amldigital_fpv.Prelude.Int.{ℤ, pos, negsuc, ltb_ℤ}
use amldigital_fpv.Text.{contains, c_string}
use amldigital_fpv.Aml.Front.{
  vformat_hevc, DecoderSetup, Call, allocate_config, free_config, decoder, open_video,
  create_thread, join_thread, close_video, Machine, Front, log,
}
use amldigital_fpv.Aml.Parameters.{
  frame_ticks, set_modes, set_h264, drop_config, set_h265, set_av1, set_format, set_sysinfo,
}
use amldigital_fpv.Aml.Setup.Order.{has_config, in_order, IsOrdered}
use amldigital_fpv.Aml.Setup.{
  set_decoder, tune, ensure_buf_size, create_display, start_display, start_decoder, aml_setup,
  set_is_done, join_display, stop_display, aml_cleanup, decoder_setup, tuning,
}

abbrev is_open_video : Call → Bool
is_open_video open_video = true
is_open_video _ = false

abbrev is_close_video : Call → Bool
is_close_video close_video = true
is_close_video _ = false

abbrev is_create_thread : Call → Bool
is_create_thread (create_thread true) = true
is_create_thread _ = false

abbrev is_join_thread : Call → Bool
is_join_thread join_thread = true
is_join_thread _ = false

abbrev is_allocate_config : Call → Bool
is_allocate_config allocate_config = true
is_allocate_config _ = false

abbrev is_free_config : Call → Bool
is_free_config free_config = true
is_free_config _ = false

-- The video device is open where `videoFd` says so, the display thread was created and not joined
-- where the state says so, which is only where the device is open, the text of the configuration is
-- allocated where it is set, and the calls were in order.
pub record IsTidy (s : Front) : Type 0 where
  pub video : tally is_open_video s.calls ≡ tally is_close_video s.calls + held s.video_open
  pub thread : tally is_create_thread s.calls ≡ tally is_join_thread s.calls + held s.thread
  pub shows : (s.thread && s.video_open) ≡ s.thread
  pub config :
      tally is_allocate_config s.calls
      ≡ tally is_free_config s.calls + held (has_config s.codec.config)
  pub ordered : IsOrdered s

-- Nothing is held: what was opened, created and allocated is closed, joined and freed; and the calls
-- were in order up to the last.
pub record IsGivenBack (s : Front) : Type 0 where
  pub video : tally is_open_video s.calls ≡ tally is_close_video s.calls
  pub thread : tally is_create_thread s.calls ≡ tally is_join_thread s.calls
  pub config : tally is_allocate_config s.calls ≡ tally is_free_config s.calls
  pub order : in_order s.calls ≡ true

-- Tidy, with the video device closed.
abbrev IsIdle : Front → Type 0
IsIdle s = IsTidy s × (s.video_open ≡ false)

drop_config-IsTidy :
    (s : Front)
    → IsTidy s
    → let s' = drop_config s in
      IsTidy s'
      × (s'.video_open ≡ s.video_open)
      × (s'.thread ≡ s.thread)
      × (has_config s'.codec.config ≡ false)
unfolding drop_config log tally
drop_config-IsTidy s t = ground arith

set_modes-IsIdle : (f p d : ℤ) (s : Front) → IsIdle s → IsIdle (set_modes f p d s)
unfolding set_modes log tally
set_modes-IsIdle f p d s i = ground arith

tune-IsIdle : (l : List (List ℕ × List ℕ)) (s : Front) → IsIdle s → IsIdle (tune l s)
unfolding tune log tally
tune-IsIdle [] s i = i
tune-IsIdle ((path, value) ∷ rest) s i = tune-IsIdle rest _ (ground arith)

set_decoder-IsIdle :
    (m : Machine) (l : List DecoderSetup) (s : Front) → IsIdle s → IsIdle (set_decoder m l s).1
unfolding set_decoder log tally
set_decoder-IsIdle m [] s i = i
set_decoder-IsIdle m (c ∷ cs) s i =
    let now : IsIdle (log (decoder c) s) = ground arith in
    ground (arith, set_decoder-IsIdle m cs _ now)

-- Idle, where the format is supported.
abbrev IsSupported : Option Front → Type 0
IsSupported none = Unit
IsSupported (some s) = IsIdle s

set_format-IsIdle :
    (m : Machine) (format width height : ℤ) (s : Front)
    → IsIdle s
    → IsSupported (set_format m format width height s)
unfolding set_format set_h264 set_h265 set_av1 log tally
set_format-IsIdle m format width height s i = ground (
  arith,
  drop_config-IsTidy (record s { codec = record s.codec { video_type = some vformat_hevc } }),
)

set_sysinfo-IsIdle :
    (width height ticks buf_level : ℤ) (s : Front)
    → IsIdle s
    → IsIdle (set_sysinfo width height ticks buf_level s)
unfolding set_sysinfo
set_sysinfo-IsIdle width height ticks buf_level s i = ground arith

ensure_buf_size-IsTidy :
    (n : ℕ) (s : Front)
    → IsTidy s
    → IsTidy (ensure_buf_size n s) × ((ensure_buf_size n s).video_open ≡ s.video_open)
unfolding ensure_buf_size log tally
ensure_buf_size-IsTidy n s t = ground arith

-- There is a map of video paths, with a line's end in it.
abbrev has_map : Machine → Bool
has_map m = elim m.vfm_map [ none ↦ false | some text ↦ contains (10 ∷ []) (c_string text) ]

-- Tidy. The result is 0, and the video device is open exactly where there is a map; or it is
-- negative, and the device is closed. The thread runs where the device is open and `pthread_create`
-- succeeds.
abbrev IsStarted : Machine → ℤ × Front → Type 0
IsStarted m (code, s) =
    IsTidy s
    × (s.thread ≡ (s.video_open && m.creates_thread))
    × (((code ≡ pos 0) × (s.video_open ≡ has_map m))
        ⊎ ((ltb_ℤ code (pos 0) ≡ true) × (s.video_open ≡ false)))

start_display-IsStarted : (m : Machine) (s : Front) → IsIdle s → IsStarted m (start_display m s)
unfolding start_display create_display log tally
start_display-IsStarted m s i =
    let with_display = create_display m (log open_video (record s { video_open = true })) in
    let tidy : IsTidy with_display = ground arith in
    ground (
      arith,
      ensure_buf_size-IsTidy (256 * 1024) s,
      ensure_buf_size-IsTidy (256 * 1024) with_display tidy,
    )

start_decoder-IsStarted : (m : Machine) (s : Front) → IsIdle s → IsStarted m (start_decoder m s)
unfolding start_decoder
start_decoder-IsStarted m s i =
    let d = set_decoder-IsIdle m decoder_setup s i in
    let s' = (set_decoder m decoder_setup s).1 in
    ground (arith, start_display-IsStarted m (tune tuning s') (tune-IsIdle tuning s' d))

-- A setup that the rate 0 ends has no result.
abbrev pub IsSetUp : Machine → ℤ → Option (ℤ × Front) → Type 0
IsSetUp m redraw none = redraw ≡ pos 0
IsSetUp m redraw (some r) = IsStarted m r

with_format :
    (m : Machine) (width height redraw level : ℤ) (o : Option Front)
    → IsSupported o
    → (s : Front) → IsIdle s
    → IsSetUp m redraw (elim o [
      | none ↦ some (negsuc 0, s)
      | some s2 ↦ elim (frame_ticks redraw) [
        | none ↦ none
        | some ticks ↦ some (start_decoder m (set_sysinfo width height ticks level s2))
      ]
    ])
unfolding frame_ticks
with_format m width height redraw level none c s i = ground (arith, i)
with_format m width height (pos zero) level (some s2) c s i = refl
with_format m width height (pos (suc r)) level (some s2) c s i =
    start_decoder-IsStarted m _ (set_sysinfo-IsIdle width height _ level s2 c)
with_format m width height (negsuc r) level (some s2) c s i =
    start_decoder-IsStarted m _ (set_sysinfo-IsIdle width height _ level s2 c)

-- From an idle front end the setup keeps count: what it has opened, started and allocated is what the
-- state says, in the order in which it may be. Where the result is 0, the video device is open
-- exactly if there is a map of video paths; else the result is negative and the device is closed. The
-- display thread runs where the device is open and `pthread_create` succeeds, whose result the setup
-- ignores. There is no result only for the rate 0.
pub aml_setup-IsSetUp :
    (m : Machine) (format width height redraw frame_path stream_type level mode : ℤ) (s : Front)
    → IsIdle s
    → IsSetUp m redraw (aml_setup m format width height redraw frame_path stream_type level mode s)
unfolding aml_setup
aml_setup-IsSetUp m format width height redraw frame_path stream_type level mode s i =
    let now = set_modes-IsIdle frame_path stream_type mode s i in
    with_format m width height redraw level _ (set_format-IsIdle m format width height _ now) _ now

-- Where count was kept, and the display thread runs if the video device is open: after the cleanup
-- the thread was told to end and then joined, the device was closed behind that, and the text of the
-- configuration is freed; no call was out of the order.
pub aml_cleanup-IsGivenBack :
    (s : Front) → IsTidy s → s.thread ≡ s.video_open → IsGivenBack (aml_cleanup s)
unfolding aml_cleanup stop_display set_is_done join_display log tally
aml_cleanup-IsGivenBack s t shown = ground (arith, drop_config-IsTidy s t)
