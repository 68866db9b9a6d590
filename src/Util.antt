-- ===== src/Util.antt =====
-- src/util.c: the file functions and the clock. A file answers each call through the arguments; the
-- results are those of the C functions with the calls, the last in front.
use amldigital_fpv.Prelude.{
  ◌*◌, tally, ℕ, ◌≡◌, Bool, true, false, List, [], ◌∷◌, Option, none, some, length, take,
  if◌then◌else◌, arith,
}
use amldigital_fpv.Prelude.Int.{ℤ, pos, negsuc, ltb_ℤ}
use amldigital_fpv.Text.{bytes}
use amldigital_fpv.Floats.{Floats}

pub data FileCall : Type 0 where
  opens : FileCall
  writes : List ℕ → FileCall
  reads : ℕ → FileCall
  closes : FileCall
  -- A message on the standard error.
  reports : FileCall

abbrev minus_one : ℤ
minus_one = negsuc 0

-- `ret` is what `write` gives.
unfoldable pub write_bool : Bool → ℤ → Bool → ℤ × List FileCall
write_bool opened ret val =
    if opened
    then (
      pos 0,
      closes
          ∷ (let calls = writes (if val then bytes "1" else bytes "0") ∷ opens ∷ [] in
              if ltb_ℤ ret (pos 0) then reports ∷ calls else calls),
    )
    else (minus_one, [])

-- `content` is what `read` gives, at most so many bytes, or none where it fails.
unfoldable pub read_file : Bool → Option (List ℕ) → ℕ → (ℤ × List ℕ) × List FileCall
read_file opened content output_len =
    if opened
    then (
      elim content [
        | none ↦ (minus_one, [])
        | some bs ↦ (pos (length (take output_len bs)), take output_len bs)
      ],
      closes ∷ reads output_len ∷ opens ∷ [],
    )
    else ((minus_one, []), [])

unfoldable pub write_sysfs : Bool → Bool → List ℕ → List FileCall
write_sysfs opened written val =
    if opened
    then closes
      ∷ (let calls = writes val ∷ opens ∷ [] in if written then calls else reports ∷ calls)
    else reports ∷ []

-- The seconds and the nanoseconds of the monotonic clock, or none where it fails, on which the
-- program is aborted.
unfoldable pub get_time_ms : Floats → Option (ℕ × ℕ) → Option ℕ
get_time_ms floats none = none
get_time_ms floats (some (sec, nsec)) = some (
    floats.to_uint64
      (floats.add (floats.of_ℕ (sec * 1000)) (floats.div (floats.of_ℕ nsec) (floats.of_ℕ 1000000))))

abbrev is_opens : FileCall → Bool
is_opens opens = true
is_opens _ = false

abbrev is_closes : FileCall → Bool
is_closes closes = true
is_closes _ = false

abbrev pub IsClosed : List FileCall → Type 0
IsClosed calls = tally is_opens calls ≡ tally is_closes calls

-- Whatever the files answer, each of the three closes what it opened.
pub files-IsClosed :
    (opened val written : Bool) (ret : ℤ) (content : Option (List ℕ)) (output_len : ℕ)
    (text : List ℕ)
    → IsClosed (write_bool opened ret val).1
      × IsClosed (read_file opened content output_len).1
      × IsClosed (write_sysfs opened written text)
unfolding write_bool read_file write_sysfs tally
files-IsClosed opened val written ret content output_len text = ground arith
