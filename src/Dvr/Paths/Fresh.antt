-- ===== src/Dvr/Paths/Fresh.antt =====
-- The name that `make_incremental_filename` chooses is not that of a file in the directory.
use amldigital_fpv.Prelude.{
  ℕ, suc, ◌≤◌, ◌<◌, ◌≡◌, ◌≢◌, refl, sym, ap, ◌∙◌, ◌⊎◌, inl, inr, true, false, List, [], ◌∷◌, ◌++◌,
  Option, none, some, arith, All, Bool-cases, subst,
}
use amldigital_fpv.Prelude.Int.{ℤ, pos, negsuc}
use amldigital_fpv.Text.{bytes, eq_bytes, is_empty, eq_bytes_refl}
use amldigital_fpv.Text.Decimal.{
  AllDigits, int_max, show_ℕ, show, pad, leading_digits, leading_digits-all, stoi-le, value_from,
  pad-show_ℕ-AllDigits, value_from-pad-show_ℕ, stoi-digits, pad-show_ℕ-cons,
}
use amldigital_fpv.Dvr.World.{Bytes, Entry}
use amldigital_fpv.Dvr.Paths.{
  split_dot, stem, extension, index_of_digits, entry_index, larger, max_index_from, next_index,
  incremental_name,
}

-- Indices start at -1, and are of type `int`.
abbrev IsIndex : ℤ → Type 0
IsIndex (pos n) = n ≤ int_max
IsIndex (negsuc n) = n ≡ 0

-- The index after this one, as a number.
abbrev after : ℤ → ℕ
after (pos n) = suc n
after (negsuc n) = 0

entry_index-le : (e : Entry) (n : ℕ) → entry_index e ≡ some (pos n) → n ≤ int_max
unfolding entry_index index_of_digits
entry_index-le e n q = elim (Bool-cases e.is_regular_file) [
  | inl reg ↦ elim (Bool-cases (eq_bytes (extension e.name) (bytes ".mp4"))) [
    | inl video ↦ of_digits (leading_digits (stem e.name)) (rw (reg, video) at q)
    | inr other ↦ cc (rw (reg, other) at q)
  ]
  | inr other ↦ cc (rw other at q)
]
  where
    of_digits : (ds : Bytes) → index_of_digits ds ≡ some (pos n) → n ≤ int_max
    of_digits [] e = ground arith
    of_digits (d ∷ ds) e = stoi-le (d ∷ ds) n e

larger-IsIndex :
    (m : ℤ) (o : Option ℤ)
    → ((n : ℕ) → o ≡ some (pos n) → n ≤ int_max)
    → IsIndex m
    → IsIndex (larger m o)
unfolding larger
larger-IsIndex m none small h = h
larger-IsIndex (pos n) (some (pos v)) small h = let le : v ≤ int_max = small v refl in ground arith
larger-IsIndex (pos n) (some (negsuc v)) small h = ground arith
larger-IsIndex (negsuc n) (some (pos v)) small h =
    let le : v ≤ int_max = small v refl in ground arith
larger-IsIndex (negsuc n) (some (negsuc v)) small h = ground arith

larger-bounds :
    (m : ℤ) (o : Option ℤ)
    → (after m ≤ after (larger m o)) × ((n : ℕ) → o ≡ some (pos n) → n < after (larger m o))
unfolding larger
larger-bounds m none = (omega arith, λ n e. cc)
larger-bounds (pos k) (some (pos v)) = (ground arith, λ n e. ground arith)
larger-bounds (pos k) (some (negsuc v)) = (ground arith, λ n e. ground arith)
larger-bounds (negsuc k) (some (pos v)) = (ground arith, λ n e. ground arith)
larger-bounds (negsuc k) (some (negsuc v)) = (ground arith, λ n e. ground arith)

max_index_from-IsIndex : (m : ℤ) (es : List Entry) → IsIndex m → IsIndex (max_index_from m es)
unfolding max_index_from
max_index_from-IsIndex m [] h = h
max_index_from-IsIndex m (e ∷ es) h =
    max_index_from-IsIndex (larger m (entry_index e)) es
      (larger-IsIndex m (entry_index e) (entry_index-le e) h)

-- No entry counts for `n` or more.
abbrev Below : ℕ → Entry → Type 0
Below n e = (k : ℕ) → entry_index e ≡ some (pos k) → k < n

All-Below-mono : (m n : ℕ) (es : List Entry) → m ≤ n → All (Below m) es → All (Below n) es
All-Below-mono m n [] h b = tt
All-Below-mono m n (e ∷ es) h b =
    (λ k q. let lt : k < m = b.0 k q in omega arith, All-Below-mono m n es h b.1)

max_index_from-Below :
    (m : ℤ) (es : List Entry)
    → (after m ≤ after (max_index_from m es)) × All (Below (after (max_index_from m es))) es
unfolding max_index_from
max_index_from-Below m [] = (omega arith, tt)
max_index_from-Below m (e ∷ es) =
    let m' = larger m (entry_index e) in
    let rest = max_index_from-Below m' es in
    let bounds = larger-bounds m (entry_index e) in
    (omega arith, ((λ k q. let lt : k < after m' = bounds.1 k q in omega arith), rest.1))

split_dot-digits :
    (ds : List ℕ) → AllDigits ds → split_dot (ds ++ bytes ".mp4") ≡ some (ds, bytes ".mp4")
unfolding split_dot
split_dot-digits [] h = refl
split_dot-digits (d ∷ ds) h = rw (split_dot-digits ds h.2)

module _ (d : ℕ) (ds : List ℕ) (h : AllDigits (d ∷ ds)) where
  not_dots : (cs : List ℕ) → eq_bytes (d ∷ cs) (bytes "..") ≡ false
  unfolding eq_bytes
  not_dots cs = ground arith

  extension-digits : extension (d ∷ ds ++ bytes ".mp4") ≡ bytes ".mp4"
  unfolding extension is_empty
  extension-digits = rw (not_dots (ds ++ bytes ".mp4"), split_dot-digits (d ∷ ds) h)

  stem-digits : stem (d ∷ ds ++ bytes ".mp4") ≡ d ∷ ds
  unfolding stem is_empty
  stem-digits = rw (not_dots (ds ++ bytes ".mp4"), split_dot-digits (d ∷ ds) h)

  index_of_digits-all :
      value_from 0 (d ∷ ds) ≤ int_max
      → index_of_digits (leading_digits (d ∷ ds)) ≡ some (pos (value_from 0 (d ∷ ds)))
  unfolding index_of_digits
  index_of_digits-all small = rw (leading_digits-all (d ∷ ds) h) (stoi-digits d ds h small)

-- A file whose name is a padded number counts for that number.
entry_index-number :
    (e : Entry) (n : ℕ)
    → e.is_regular_file ≡ true
    → n ≤ int_max
    → e.name ≡ pad 4 (show_ℕ n) ++ bytes ".mp4"
    → entry_index e ≡ some (pos n)
unfolding entry_index
entry_index-number e n reg small name =
    let (d, ds, cons) = pad-show_ℕ-cons 4 n in
    let digits : AllDigits (d ∷ ds) = subst AllDigits cons (pad-show_ℕ-AllDigits 4 n) in
    let value : value_from 0 (d ∷ ds) ≡ n =
      ap (value_from 0) (sym cons) ∙ value_from-pad-show_ℕ 4 n in
    let named : e.name ≡ d ∷ ds ++ bytes ".mp4" = name ∙ ap (λ cs. cs ++ bytes ".mp4") cons in
    let index : index_of_digits (leading_digits (d ∷ ds)) ≡ some (pos n) =
      index_of_digits-all d ds digits (omega arith) ∙ ap (λ k. some (pos k)) value in
    rw (
      reg,
      ap extension named ∙ extension-digits d ds digits,
      eq_bytes_refl (bytes ".mp4"),
      ap stem named ∙ stem-digits d ds digits,
      index,
    )

-- The name of an entry that is no regular file may be taken: such an entry is passed over.
abbrev pub IsFree : Bytes → Entry → Type 0
IsFree name e = (e.is_regular_file ≡ false) ⊎ (e.name ≢ name)

-- The name is the number after the largest.
incremental_name-number :
    (es : List Entry)
    → after (max_index_from (negsuc 0) es) ≤ int_max
    → incremental_name es ≡ pad 4 (show_ℕ (after (max_index_from (negsuc 0) es))) ++ bytes ".mp4"
unfolding incremental_name show
incremental_name-number es h =
    ap (λ z. pad 4 (show z) ++ bytes ".mp4")
      (next (max_index_from (negsuc 0) es) (max_index_from-IsIndex (negsuc 0) es refl) h)
  where
    next : (m : ℤ) → IsIndex m → after m ≤ int_max → next_index m ≡ pos (after m)
    next (pos n) i small = ground arith
    next (negsuc n) i small = ground arith

All-IsFree :
    (n : ℕ) (es : List Entry)
    → n ≤ int_max
    → All (Below n) es
    → All (IsFree (pad 4 (show_ℕ n) ++ bytes ".mp4")) es
All-IsFree n [] small b = tt
All-IsFree n (e ∷ es) small b = (
  elim (Bool-cases e.is_regular_file) [
    | inl reg ↦
        inr (λ name. let lt : n < n = b.0 n (entry_index-number e n reg small name) in omega arith)
    | inr other ↦ inl other
  ],
  All-IsFree n es small b.1,
)

-- The next name belongs to no regular file of the directory, unless the largest index there is the
-- largest `int`.
pub incremental_name-IsFree :
    (es : List Entry)
    → max_index_from (negsuc 0) es ≢ pos int_max
    → All (IsFree (incremental_name es)) es
incremental_name-IsFree es h =
    let small =
      after-le (max_index_from (negsuc 0) es) (max_index_from-IsIndex (negsuc 0) es refl) h in
    rw (incremental_name-number es small)
      (All-IsFree _ es small (max_index_from-Below (negsuc 0) es).1)
  where
    after-le : (m : ℤ) → IsIndex m → m ≢ pos int_max → after m ≤ int_max
    after-le (pos n) i ne = ground arith
    after-le (negsuc n) i ne = omega arith
