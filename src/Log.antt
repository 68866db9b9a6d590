-- ===== src/Log.antt =====
-- src/spdlog_wrapper.cpp: the C functions in front of spdlog. What spdlog does is a parameter: its
-- reading of a level's name, whether it makes a logger, and what `vsnprintf` makes of a message.
use amldigital_fpv.Prelude.{
  ℕ, ◌+◌, ◌≡◌, refl, Bool, true, false, not, ◌&&◌, List, [], ◌∷◌, Option, none, some, leb,
  if◌then◌else◌, arith, Bool-cases, inl, inr,
}
use amldigital_fpv.Text.{bytes, eq_bytes, eq_bytes_sound, c_string}

pub data Level : Type 0 where
  trace debug info warn error critical off : Level

unfoldable pub is_off : Level → Bool
is_off off = true
is_off _ = false

-- The letters of both cases are the same to `strcasecmp`.
unfoldable pub lower : List ℕ → List ℕ
lower [] = []
lower (c ∷ cs) = (if leb 65 c && leb c 90 then c + 32 else c) ∷ lower cs

unfoldable pub level_from_str : (List ℕ → Level) → Option (List ℕ) → Level
unfolding is_off lower
level_from_str from_str none = info
level_from_str from_str (some lvl) =
    if is_off (from_str lvl) && not (eq_bytes (lower lvl) (bytes "off")) then info else from_str lvl

-- Whether there is a default logger, the level, and what spdlog was given, the last in front.
pub record Log : Type 0 where
  pub logger : Bool
  pub level : Level
  pub messages : List (Level × List ℕ)

-- `makes` is whether the logger is made; an exception is ignored.
unfoldable pub ensure_logger : Bool → Log → Log
ensure_logger makes l = if l.logger then l else record l { logger = makes }

unfoldable pub spdlog_init : (List ℕ → Level) → Bool → Option (List ℕ) → Log → Log
spdlog_init from_str makes level l = record (ensure_logger makes l) {
  level = level_from_str from_str level;
}

unfoldable pub spdlog_set_level : (List ℕ → Level) → Bool → Option (List ℕ) → Log → Log
spdlog_set_level from_str makes level l = record (ensure_logger makes l) {
  level = level_from_str from_str level;
}

-- `needed` is what `vsnprintf` makes of the format, none where it fails; the text ends at a zero.
unfoldable pub format_message : Bool → Option (List ℕ) → List ℕ
format_message fmt needed =
    if not fmt then [] else elim needed [ none ↦ [] | some text ↦ c_string text ]

-- The six functions for messages differ in the level.
unfoldable pub log_at : Level → Bool → Bool → Option (List ℕ) → Log → Log
unfolding ensure_logger
log_at level makes fmt needed l =
    let l' = ensure_logger makes l in
    record l' { messages = (level, format_message fmt needed) ∷ l'.messages }

-- The log is turned off by no name but "off", in whichever case: an unknown one is `info`, as is
-- none.
pub level_from_str-off :
    (from_str : List ℕ → Level) (level : Option (List ℕ))
    → is_off (level_from_str from_str level) ≡ true
    → (lvl : List ℕ) × (level ≡ some lvl) × (lower lvl ≡ bytes "off")
unfolding level_from_str is_off
level_from_str-off from_str none h = absurd (ground arith)
level_from_str-off from_str (some lvl) h = elim (Bool-cases (eq_bytes (lower lvl) (bytes "off"))) [
  | inl same ↦ (lvl, refl, eq_bytes_sound (lower lvl) (bytes "off") same)
  | inr other ↦ absurd (ground arith)
]
