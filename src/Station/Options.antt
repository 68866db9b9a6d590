-- ===== src/Station/Options.antt =====
-- The command line of src/main.cpp: `CmdOptions` and the loop on `getopt`, which gives each option
-- as its letter and its argument. `selected_codec` and the recorder's parameters come from them.
use amldigital_fpv.Prelude.{
  ℕ, ◌≡◌, List, [], ◌∷◌, true, ◌==◌, if◌then◌else◌, arith, Bool-cases, inl, inr, refl,
}
use amldigital_fpv.Prelude.Int.{ℤ, pos, ltb_ℤ, eqb_ℤ, to_unsigned}
use amldigital_fpv.Text.{is_empty}
use amldigital_fpv.Text.Decimal.{atoi}
use amldigital_fpv.Codec.{VideoCodec, h264, h265}
use amldigital_fpv.Dvr.State.{Recorder, set_video_params, set_override_path}

-- `frame_path`: 1 presents AMVIDEO. `kind` is `type`: 0 is H265. `stream_type`: 0 is ES video.
pub record CmdOptions : Type 0 where
  pub width : ℤ
  pub height : ℤ
  pub fps : ℤ
  pub dvr_path : List ℕ
  pub frame_path : ℤ
  pub kind : ℤ
  pub stream_type : ℤ
  pub buf_level : ℤ
  pub enable_audio : ℤ
  pub alignment : ℤ
  pub dec_mode : ℤ

abbrev pub default_options : CmdOptions
default_options = record {
  width = pos 1920;
  height = pos 1080;
  fps = pos 120;
  dvr_path = [];
  frame_path = pos 1;
  kind = pos 0;
  stream_type = pos 0;
  buf_level = pos 4;
  enable_audio = pos 0;
  alignment = pos 0;
  dec_mode = pos 1;
}

-- The level of the buffer is 4 for an argument that is 0 or less.
unfoldable pub buffer_level : List ℕ → ℤ
buffer_level optarg = let level = atoi optarg in if ltb_ℤ (pos 0) level then level else pos 4

-- The branches of the `switch`; an unknown letter is left out.
unfoldable pub set_option : ℕ → List ℕ → CmdOptions → CmdOptions
unfolding buffer_level
set_option letter optarg o =
    if letter == b'w'
    then record o { width = atoi optarg }
    else if letter == b'h'
    then record o { height = atoi optarg }
    else if letter == b'p'
    then record o { fps = atoi optarg }
    else if letter == b's'
    then record o { dvr_path = optarg }
    else if letter == b'f'
    then record o { frame_path = atoi optarg }
    else if letter == b't'
    then record o { kind = atoi optarg }
    else if letter == b'd'
    then record o { stream_type = atoi optarg }
    else if letter == b'l'
    then record o { buf_level = buffer_level optarg }
    else if letter == b'a'
    then record o { enable_audio = atoi optarg }
    else if letter == b'g'
    then record o { alignment = atoi optarg }
    else if letter == b'm'
    then record o { dec_mode = atoi optarg }
    else o

unfoldable pub parse_options : List (ℕ × List ℕ) → CmdOptions → CmdOptions
parse_options [] o = o
parse_options ((letter, optarg) ∷ rest) o = parse_options rest (set_option letter optarg o)

unfoldable pub selected_codec : CmdOptions → VideoCodec
selected_codec o = if eqb_ℤ o.kind (pos 0) then h265 else h264

-- The new recorder gets the size, the rate and the codec, and the path if there is one.
unfoldable pub configure_recorder : CmdOptions → Recorder → Recorder
unfolding selected_codec
configure_recorder o s =
    let s' =
      set_video_params (to_unsigned 32 o.width) (to_unsigned 32 o.height) (to_unsigned 32 o.fps)
        (selected_codec o) s in
    if is_empty o.dvr_path then s' else set_override_path o.dvr_path s'

buffer_level-positive : (optarg : List ℕ) → ltb_ℤ (pos 0) (buffer_level optarg) ≡ true
unfolding buffer_level
buffer_level-positive optarg = elim (Bool-cases (ltb_ℤ (pos 0) (atoi optarg))) [
  | inl e ↦ rw e e
  | inr e ↦ rw e refl
]

set_option-buf_level :
    (letter : ℕ) (optarg : List ℕ) (o : CmdOptions)
    → ltb_ℤ (pos 0) o.buf_level ≡ true
    → ltb_ℤ (pos 0) (set_option letter optarg o).buf_level ≡ true
unfolding set_option
set_option-buf_level letter optarg o h = ground (arith, buffer_level-positive optarg)

-- From a level of the buffer of at least 1, whatever the options, in whatever order, it is at least
-- 1 behind them.
pub parse_options-buf_level :
    (args : List (ℕ × List ℕ)) (o : CmdOptions)
    → ltb_ℤ (pos 0) o.buf_level ≡ true
    → ltb_ℤ (pos 0) (parse_options args o).buf_level ≡ true
unfolding parse_options
parse_options-buf_level [] o h = h
parse_options-buf_level ((letter, optarg) ∷ rest) o h =
    parse_options-buf_level rest _ (set_option-buf_level letter optarg o h)
