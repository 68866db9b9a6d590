-- ===== src/Config.antt =====
-- KvConfig of src/kv_config.cpp: lines `key=value`, and the look-up of their values.
pub mod Assigned
mod Samples
use amldigital_fpv.Prelude.{
  ℕ, ◌≡◌, refl, Bool, true, false, ◌||◌, List, [], ◌∷◌, ◌++◌, Option, none, some, ◌==◌,
  if◌then◌else◌, arith, Bool-cases, inl, inr, ap, ◌∙◌, sym,
}
use amldigital_fpv.Prelude.Int.{ℤ}
use amldigital_fpv.Text.{eq_bytes, eq_bytes_refl, eq_bytes_sound, is_empty}
use amldigital_fpv.Text.Decimal.{stoi}
use mathlib.Core.List.{reverse}

-- " \t\r\n"
unfoldable pub is_blank : ℕ → Bool
is_blank c = c == 32 || c == 9 || c == 13 || c == 10

unfoldable pub drop_blanks : List ℕ → List ℕ
drop_blanks [] = []
drop_blanks (c ∷ cs) = if is_blank c then drop_blanks cs else c ∷ cs

unfoldable pub trim : List ℕ → List ℕ
trim s = reverse (drop_blanks (reverse (drop_blanks s)))

-- `kv_`: a key stands in it once.
abbrev pub Table : Type 0
Table = List (List ℕ × List ℕ)

-- `kv_[key] = val`
unfoldable pub put : List ℕ → List ℕ → Table → Table
put key val [] = (key, val) ∷ []
put key val ((k, v) ∷ t) = if eq_bytes k key then (k, val) ∷ t else (k, v) ∷ put key val t

unfoldable pub get : List ℕ → Table → Option (List ℕ)
get key [] = none
get key ((k, v) ∷ t) = if eq_bytes k key then some v else get key t

unfoldable pub get_int : List ℕ → Table → Option ℤ
get_int key t = elim (get key t) [ none ↦ none | some v ↦ stoi v ]

-- The line before and behind its first '='.
unfoldable pub split_equals : List ℕ → Option (List ℕ × List ℕ)
split_equals [] = none
split_equals (c ∷ cs) =
    let rest = split_equals cs in
    if c == b'='
    then some ([], cs)
    else elim rest [ none ↦ none | some (key, val) ↦ some (c ∷ key, val) ]

-- `line[0] == '#'`
unfoldable pub is_comment : List ℕ → Bool
is_comment [] = false
is_comment (c ∷ cs) = c == b'#'

-- The sides of the '=' of a line, where it has one.
unfoldable pub put_sides : Option (List ℕ × List ℕ) → Table → Table
put_sides none t = t
put_sides (some (key, val)) t = if is_empty (trim key) then t else put (trim key) (trim val) t

-- A trimmed line.
unfoldable pub add_trimmed : List ℕ → Table → Table
unfolding put_sides
add_trimmed text t = if is_empty text || is_comment text then t else put_sides (split_equals text) t

unfoldable pub add_line : List ℕ → Table → Table
add_line text t = add_trimmed (trim text) t

unfoldable pub add_lines : List (List ℕ) → Table → Table
add_lines [] t = t
add_lines (text ∷ rest) t = add_lines rest (add_line text t)

-- `std::getline` until it fails: behind a last line break there is no line.
unfoldable pub onto_line : ℕ → List (List ℕ) → List (List ℕ)
onto_line c [] = (c ∷ []) ∷ []
onto_line c (text ∷ rest) = (c ∷ text) ∷ rest

unfoldable pub split_lines : List ℕ → List (List ℕ)
unfolding onto_line
split_lines [] = []
split_lines (c ∷ cs) = let rest = split_lines cs in if c == 10 then [] ∷ rest else onto_line c rest

-- The bytes of the file, where it can be opened; the old table goes in any case.
unfoldable pub load : Option (List ℕ) → Table → Bool × Table
load none t = (false, [])
load (some content) t = (true, add_lines (split_lines content) [])

-- Two different keys are not both the third.
apart :
    (k key other : List ℕ)
    → eq_bytes k key ≡ false
    → eq_bytes k other ≡ true
    → eq_bytes key other ≡ false
apart k key other differ same = elim (Bool-cases (eq_bytes key other)) [
  | inl e ↦
      let both : k ≡ key = eq_bytes_sound k other same ∙ sym (eq_bytes_sound key other e) in
      cc (differ, eq_bytes_refl key, ap (λ l. eq_bytes l key) both)
  | inr differs ↦ differs
]

-- What was put is found, and the other keys keep what they had.
pub get-put :
    (key val other : List ℕ) (t : Table)
    → get other (put key val t) ≡ (if eq_bytes key other then some val else get other t)
unfolding get put
get-put key val other [] = ground arith
get-put key val other ((k, v) ∷ t) = elim (Bool-cases (eq_bytes k key)) [
  | inl same ↦ let e = eq_bytes_sound k key same in ground (arith, ap (λ l. eq_bytes l other) e)
  | inr differ ↦ ground (arith, get-put key val other t, apart k key other differ)
]

-- Every character of the key is another one than '='.
abbrev pub IsKey : List ℕ → Type 0
IsKey [] = Unit
IsKey (c ∷ cs) = ((c == b'=') ≡ false) × IsKey cs

split_equals-join :
    (key val : List ℕ) → IsKey key → split_equals (key ++ b'=' ∷ val) ≡ some (key, val)
unfolding split_equals
split_equals-join [] val k = refl
split_equals-join (c ∷ key) val k = rw (k.0, split_equals-join key val k.1) refl

-- A line that is a key, '=' and a value, all without blanks at their ends, where the key has no '=',
-- is not empty, and the line does not start with '#': the value is found under the key, whatever was
-- there before.
pub get-add_line :
    (key val : List ℕ) (t : Table)
    → IsKey key
    → is_empty key ≡ false
    → is_comment (key ++ b'=' ∷ val) ≡ false
    → trim key ≡ key
    → trim val ≡ val
    → trim (key ++ b'=' ∷ val) ≡ key ++ b'=' ∷ val
    → get key (add_line (key ++ b'=' ∷ val) t) ≡ some val
unfolding add_line add_trimmed is_empty
get-add_line [] val t k full plain trim_key trim_val trim_line = ground arith
get-add_line (c ∷ cs) val t k full plain trim_key trim_val trim_line =
    rw (trim_line, plain, split_equals-join (c ∷ cs) val k, trim_key, trim_val)
      (get-put (c ∷ cs) val (c ∷ cs) t ∙ rw (eq_bytes_refl (c ∷ cs)) refl)
