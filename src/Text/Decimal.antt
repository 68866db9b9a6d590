-- ===== src/Text/Decimal.antt =====
-- Decimal numbers: `std::isdigit`, `std::stoi`, `std::atoi`, and how a stream prints an `int`.
use amldigital_fpv.Prelude.{
  ℕ, zero, suc, ◌+◌, ◌-◌, ◌*◌, ◌/◌, ◌%◌, ◌≤◌, ◌<◌, ◌≡◌, refl, ◌∙◌, ap, Bool, true, false, ◌&&◌,
  ◌||◌, List, [], ◌∷◌, ◌++◌, Option, none, some, ltb, leb, ◌==◌, if◌then◌else◌, arith, Bool-cases,
  Option-cases, inl, inr, length, replicate,
}
use amldigital_fpv.Prelude.Int.{ℤ, pos, negsuc}

unfoldable pub is_digit : ℕ → Bool
is_digit c = leb b'0' c && leb c b'9'

-- `isspace` of the C locale.
unfoldable pub is_space : ℕ → Bool
is_space c = c == b' ' || (leb 9 c && leb c 13)

-- The digits that a text begins with.
unfoldable pub leading_digits : List ℕ → List ℕ
unfolding is_digit
leading_digits [] = []
leading_digits (c ∷ cs) = if is_digit c then c ∷ leading_digits cs else []

unfoldable pub value_from : ℕ → List ℕ → ℕ
value_from acc [] = acc
value_from acc (c ∷ cs) = value_from (acc * 10 + (c - b'0')) cs

unfoldable pub skip_spaces : List ℕ → List ℕ
unfolding is_space
skip_spaces [] = []
skip_spaces (c ∷ cs) = if is_space c then skip_spaces cs else c ∷ cs

-- `int` has 32 bits, and so has `long` on the target.
abbrev pub int_max : ℕ
int_max = 2147483647

-- What `strtol` reads behind the sign: none if there is no digit.
unfoldable pub number : Bool → List ℕ → Option ℤ
number negative [] = none
number negative (d ∷ ds) =
    let n = value_from 0 (d ∷ ds) in
    if negative then (if n == 0 then some (pos 0) else some (negsuc (n - 1))) else some (pos n)

unfoldable pub strtol_signed : List ℕ → Option ℤ
unfolding number leading_digits value_from
strtol_signed [] = none
strtol_signed (c ∷ cs) =
    if c == b'-'
    then number true (leading_digits cs)
    else if c == b'+'
    then number false (leading_digits cs)
    else number false (leading_digits (c ∷ cs))

-- The integer that a text begins with, of any size.
unfoldable pub strtol : List ℕ → Option ℤ
unfolding skip_spaces strtol_signed
strtol cs = strtol_signed (skip_spaces cs)

unfoldable pub in_int : ℤ → Option ℤ
in_int (pos n) = if leb n int_max then some (pos n) else none
in_int (negsuc n) = if leb n int_max then some (negsuc n) else none

-- `std::stoi`: none where it throws, on a text with no number and on one out of range.
unfoldable pub stoi : List ℕ → Option ℤ
unfolding strtol in_int
stoi cs = elim (strtol cs) [ none ↦ none | some z ↦ in_int z ]

unfoldable pub clamp_int : ℤ → ℤ
clamp_int (pos n) = if leb n int_max then pos n else pos int_max
clamp_int (negsuc n) = if leb n int_max then negsuc n else negsuc int_max

-- `std::atoi` of the target's library: 0 if there is no number, and the nearest `int` if it is out
-- of range.
unfoldable pub atoi : List ℕ → ℤ
unfolding strtol clamp_int
atoi cs = elim (strtol cs) [ none ↦ pos 0 | some z ↦ clamp_int z ]

-- The digits of `n` in front of `rest`. Fuel above `n` is enough.
unfoldable pub show_from : ℕ → ℕ → List ℕ → List ℕ
show_from zero n rest = rest
show_from (suc f) n rest =
    let more = show_from f (n / 10) ((b'0' + n % 10) ∷ rest) in
    if ltb n 10 then (b'0' + n) ∷ rest else more

unfoldable pub show_ℕ : ℕ → List ℕ
unfolding show_from
show_ℕ n = show_from (suc n) n []

unfoldable pub show : ℤ → List ℕ
unfolding show_ℕ
show (pos n) = show_ℕ n
show (negsuc n) = b'-' ∷ show_ℕ (suc n)

-- `std::setw(width) << std::setfill('0')`
unfoldable pub pad : ℕ → List ℕ → List ℕ
pad width cs = replicate (width - length cs) b'0' ++ cs

abbrev pub AllDigits : List ℕ → Type 0
AllDigits [] = Unit {0}
AllDigits (c ∷ cs) = (b'0' ≤ c) × (c ≤ b'9') × AllDigits cs

pub show_from-AllDigits :
    (f n : ℕ) (rest : List ℕ) → AllDigits rest → AllDigits (show_from f n rest)
unfolding show_from
show_from-AllDigits zero n rest h = h
show_from-AllDigits (suc f) n rest h =
    ground (arith, show_from-AllDigits f (n / 10) ((b'0' + n % 10) ∷ rest))

-- Reading back what is printed.
value_from-show_from :
    (f n : ℕ) (rest : List ℕ) → n < f → value_from 0 (show_from f n rest) ≡ value_from n rest
unfolding show_from value_from
value_from-show_from zero n rest h = elim h [ ]
value_from-show_from (suc f) n rest h = elim (Bool-cases (ltb n 10)) [
  | inl small ↦ rw small (ap (λ k. value_from k rest) (omega arith))
  | inr big ↦ rw big (
      value_from-show_from f (n / 10) ((b'0' + n % 10) ∷ rest) (ground arith)
      ∙ ap (λ k. value_from k rest) (omega arith))
]

value_from-pad : (k : ℕ) (cs : List ℕ) → value_from 0 (replicate k b'0' ++ cs) ≡ value_from 0 cs
unfolding value_from
value_from-pad zero cs = refl
value_from-pad (suc k) cs = value_from-pad k cs

AllDigits-pad : (k : ℕ) (cs : List ℕ) → AllDigits cs → AllDigits (replicate k b'0' ++ cs)
AllDigits-pad zero cs h = h
AllDigits-pad (suc k) cs h = (omega arith, omega arith, AllDigits-pad k cs h)

-- A run of digits before something else is read whole.
pub leading_digits-append :
    (ds : List ℕ) (c : ℕ) (cs : List ℕ)
    → AllDigits ds
    → is_digit c ≡ false
    → leading_digits (ds ++ c ∷ cs) ≡ ds
unfolding leading_digits
leading_digits-append [] c cs h e = ground arith
leading_digits-append (d ∷ ds) c cs h e = ground (arith, leading_digits-append ds c cs h.2 e)

pub leading_digits-all : (ds : List ℕ) → AllDigits ds → leading_digits ds ≡ ds
unfolding leading_digits
leading_digits-all [] h = refl
leading_digits-all (d ∷ ds) h = ground (arith, leading_digits-all ds h.2)

pub pad-show_ℕ-AllDigits : (w n : ℕ) → AllDigits (pad w (show_ℕ n))
unfolding pad show_ℕ
pad-show_ℕ-AllDigits w n =
    AllDigits-pad (w - length (show_from (suc n) n [])) _ (show_from-AllDigits (suc n) n [] tt)

pub value_from-pad-show_ℕ : (w n : ℕ) → value_from 0 (pad w (show_ℕ n)) ≡ n
unfolding pad show_ℕ value_from
value_from-pad-show_ℕ w n =
    value_from-pad (w - length (show_from (suc n) n [])) _
    ∙ value_from-show_from (suc n) n [] (omega arith)
    ∙ value_from-nil n
  where
    value_from-nil : (k : ℕ) → value_from k [] ≡ k
    value_from-nil k = refl

-- A text of digits only is read as its value, if that is an `int`.
pub stoi-digits :
    (d : ℕ) (ds : List ℕ)
    → AllDigits (d ∷ ds)
    → value_from 0 (d ∷ ds) ≤ int_max
    → stoi (d ∷ ds) ≡ some (pos (value_from 0 (d ∷ ds)))
unfolding stoi strtol strtol_signed skip_spaces number in_int
stoi-digits d ds h small = ground (arith, leading_digits-all ds h.2)

show_from-cons :
    (f n r : ℕ) (rest : List ℕ) → (d : ℕ) × (ds : List ℕ) × (show_from f n (r ∷ rest) ≡ d ∷ ds)
unfolding show_from
show_from-cons zero n r rest = (r, rest, refl)
show_from-cons (suc f) n r rest = elim (Bool-cases (ltb n 10)) [
  | inl small ↦ (b'0' + n, r ∷ rest, rw small)
  | inr big ↦ rw big (show_from-cons f (n / 10) (b'0' + n % 10) (r ∷ rest))
]

show_ℕ-cons : (n : ℕ) → (d : ℕ) × (ds : List ℕ) × (show_ℕ n ≡ d ∷ ds)
unfolding show_ℕ
show_ℕ-cons n = elim (Bool-cases (ltb n 10)) [
  | inl small ↦ (b'0' + n, [], rw small)
  | inr big ↦ rw big (show_from-cons n (n / 10) (b'0' + n % 10) [])
]

pad-cons : (k d : ℕ) (ds : List ℕ) → (c : ℕ) × (cs : List ℕ) × (replicate k b'0' ++ d ∷ ds ≡ c ∷ cs)
pad-cons zero d ds = (d, ds, refl)
pad-cons (suc k) d ds = (b'0', replicate k b'0' ++ d ∷ ds, refl)

-- A number is printed with one digit at least.
pub pad-show_ℕ-cons : (w n : ℕ) → (d : ℕ) × (ds : List ℕ) × (pad w (show_ℕ n) ≡ d ∷ ds)
unfolding pad
pad-show_ℕ-cons w n = let (d, ds, e) = show_ℕ-cons n in rw e (pad-cons (w - length (d ∷ ds)) d ds)

in_int-le : (z : ℤ) (n : ℕ) → in_int z ≡ some (pos n) → n ≤ int_max
unfolding in_int
in_int-le (pos m) n e = ground arith
in_int-le (negsuc m) n e = ground arith

-- What `stoi` returns is an `int`.
pub stoi-le : (cs : List ℕ) (n : ℕ) → stoi cs ≡ some (pos n) → n ≤ int_max
unfolding stoi
stoi-le cs n e = elim (Option-cases (strtol cs)) [
  | inl bad ↦ cc (rw (bad, stoi) at e)
  | inr (z, good) ↦ in_int-le z n (rw (good, stoi) at e)
]
