-- ===== src/Text.antt =====
-- Texts as lists of bytes, and what the program uses of the C and C++ string functions.
pub mod Decimal
use Prim.Native.Char.{code}
use Prim.Native.String.{String}
use amldigital_fpv.Prelude.{
  ℕ, ◌≡◌, refl, Bool, true, false, ◌&&◌, ◌||◌, List, [], ◌∷◌, ◌++◌, ◌==◌, arith, if◌then◌else◌,
}

-- The bytes of an ASCII literal. `String` has its own `[]` and `∷`.
abbrev pub bytes : String → List ℕ
bytes String.[] = []
bytes (String.◌∷◌ c s) = code c ∷ bytes s

unfoldable pub eq_bytes : List ℕ → List ℕ → Bool
eq_bytes [] [] = true
eq_bytes [] (d ∷ ds) = false
eq_bytes (c ∷ cs) [] = false
eq_bytes (c ∷ cs) (d ∷ ds) = c == d && eq_bytes cs ds

unfoldable pub is_empty : List ℕ → Bool
is_empty [] = true
is_empty (c ∷ cs) = false

unfoldable pub starts_with : List ℕ → List ℕ → Bool
starts_with [] cs = true
starts_with (d ∷ ds) [] = false
starts_with (d ∷ ds) (c ∷ cs) = d == c && starts_with ds cs

-- `s.find(word) != npos`
unfoldable pub contains : List ℕ → List ℕ → Bool
unfolding starts_with
contains word [] = starts_with word []
contains word (c ∷ cs) = starts_with word (c ∷ cs) || contains word cs

-- What a C string holds: the bytes before the first zero.
unfoldable pub c_string : List ℕ → List ℕ
c_string [] = []
c_string (c ∷ cs) = if c == 0 then [] else c ∷ c_string cs

pub eq_bytes_refl : (cs : List ℕ) → eq_bytes cs cs ≡ true
unfolding eq_bytes
eq_bytes_refl [] = refl
eq_bytes_refl (c ∷ cs) = ground (arith, eq_bytes_refl cs)

pub eq_bytes_sound : (cs ds : List ℕ) → eq_bytes cs ds ≡ true → cs ≡ ds
unfolding eq_bytes
eq_bytes_sound [] [] h = refl
eq_bytes_sound [] (d ∷ ds) h = ground arith
eq_bytes_sound (c ∷ cs) [] h = ground arith
eq_bytes_sound (c ∷ cs) (d ∷ ds) h = ground (arith, eq_bytes_sound cs ds)

starts_with-append :
    (word cs ds : List ℕ) → starts_with word cs ≡ true → starts_with word (cs ++ ds) ≡ true
unfolding starts_with
starts_with-append [] cs ds h = refl
starts_with-append (w ∷ ws) [] ds h = ground arith
starts_with-append (w ∷ ws) (c ∷ cs) ds h = ground (arith, starts_with-append ws cs ds)

-- A word is found in a text that holds, in front or behind, one with the word.
pub contains-front :
    (word cs ds : List ℕ) → contains word cs ≡ true → contains word (cs ++ ds) ≡ true
unfolding contains starts_with
contains-front [] [] [] h = refl
contains-front [] [] (d ∷ ds) h = refl
contains-front (w ∷ ws) [] ds h = ground arith
contains-front word (c ∷ cs) ds h =
    ground (arith, starts_with-append word (c ∷ cs) ds, contains-front word cs ds)

pub contains-behind :
    (word cs ds : List ℕ) → contains word ds ≡ true → contains word (cs ++ ds) ≡ true
unfolding contains
contains-behind word [] ds h = h
contains-behind word (c ∷ cs) ds h = ground (arith, contains-behind word cs ds)
