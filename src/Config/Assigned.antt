-- ===== src/Config/Assigned.antt =====
-- What a loaded file says of a key: an independent description, without the table.
use amldigital_fpv.Prelude.{
  ℕ, ◌≡◌, refl, ◌∙◌, ◌||◌, List, [], ◌∷◌, Option, none, some, if◌then◌else◌, arith, ap, ◌++◌, ◌==◌,
  All, false,
}
use mathlib.Core.Option
use amldigital_fpv.Text.{eq_bytes, is_empty}
use amldigital_fpv.Config.{
  Table, trim, put_sides, get, split_equals, is_comment, add_trimmed, add_line, add_lines,
  split_lines, onto_line, load, get-put,
}

-- The first, or where there is none the second.
abbrev pub or_else : Option (List ℕ) → Option (List ℕ) → Option (List ℕ)
or_else none b = b
or_else (some a) b = some a

or_else-none : (a : Option (List ℕ)) → or_else a none ≡ a
or_else-none none = refl
or_else-none (some a) = refl

-- The value that the sides of a '=' give to the key.
unfoldable pub given : List ℕ → Option (List ℕ × List ℕ) → Option (List ℕ)
given key none = none
given key (some (k, v)) =
    if is_empty (trim k) then none else if eq_bytes (trim k) key then some (trim v) else none

unfoldable pub assigned : List ℕ → List ℕ → Option (List ℕ)
assigned key text =
    if is_empty (trim text) || is_comment (trim text)
    then none
    else given key (split_equals (trim text))

-- The last line that gives the key a value.
unfoldable pub last_assigned : List ℕ → List (List ℕ) → Option (List ℕ)
last_assigned key [] = none
last_assigned key (text ∷ rest) = or_else (last_assigned key rest) (assigned key text)

get-put_sides :
    (key : List ℕ) (sides : Option (List ℕ × List ℕ)) (t : Table)
    → get key (put_sides sides t) ≡ or_else (given key sides) (get key t)
unfolding put_sides given
get-put_sides key none t = refl
get-put_sides key (some (k, v)) t = ground (arith, get-put (trim k) (trim v) key t)

get-add_trimmed :
    (key text : List ℕ) (t : Table)
    → get key (add_trimmed text t)
      ≡ or_else
          (if is_empty text || is_comment text then none else given key (split_equals text))
          (get key t)
unfolding add_trimmed
get-add_trimmed key text t = ground (arith, get-put_sides key (split_equals text) t)

get-add_lines :
    (key : List ℕ) (lines : List (List ℕ)) (t : Table)
    → get key (add_lines lines t) ≡ or_else (last_assigned key lines) (get key t)
unfolding add_lines last_assigned add_line assigned
get-add_lines key [] t = refl
get-add_lines key (text ∷ rest) t =
    ground (arith, get-add_lines key rest (add_line text t), get-add_trimmed key (trim text) t)

-- After a load, a key has the value of the last line of the file that assigns one to it, and no value
-- where none does or the file was not opened, whatever the table held before.
pub get-load :
    (key : List ℕ) (file : Option (List ℕ)) (t : Table)
    → get key (load file t).1
      ≡ Option.bind file (λ content. last_assigned key (split_lines content))
unfolding load Option.bind get
get-load key none t = refl
get-load key (some content) t =
    let lines = split_lines content in
    get-add_lines key lines [] ∙ or_else-none (last_assigned key lines)

-- A text without a line break.
abbrev IsLine : List ℕ → Type 0
IsLine [] = Unit
IsLine (c ∷ cs) = ((c == 10) ≡ false) × IsLine cs

-- The file that has these lines, each with its line break.
unfoldable write_lines : List (List ℕ) → List ℕ
write_lines [] = []
write_lines (text ∷ rest) = text ++ 10 ∷ write_lines rest

split_lines-line :
    (text rest : List ℕ) → IsLine text → split_lines (text ++ 10 ∷ rest) ≡ text ∷ split_lines rest
unfolding split_lines onto_line
split_lines-line [] rest l = refl
split_lines-line (c ∷ cs) rest l = rw (l.0, split_lines-line cs rest l.1) refl

-- Lines that are written and read again are the same.
split_lines-write_lines :
    (lines : List (List ℕ)) → All IsLine lines → split_lines (write_lines lines) ≡ lines
unfolding write_lines
split_lines-write_lines [] l = unfold split_lines in refl
split_lines-write_lines (text ∷ rest) (l, ls) =
    split_lines-line text (write_lines rest) l
    ∙ ap (λ r. text ∷ r) (split_lines-write_lines rest ls)

-- A file that is written line by line, of lines without a line break: what is loaded for a key is
-- what the last of these lines that assigns it a value says.
load-write_lines :
    (key : List ℕ) (lines : List (List ℕ)) (t : Table)
    → All IsLine lines
    → get key (load (some (write_lines lines)) t).1 ≡ last_assigned key lines
unfolding Option.bind
load-write_lines key lines t l =
    get-load key (some (write_lines lines)) t
    ∙ ap (last_assigned key) (split_lines-write_lines lines l)
