-- ===== src/Dvr/Paths.antt =====
-- Where a recording goes: `resolve_target_file`, `find_default_media_root` and
-- `make_incremental_filename` of src/dvr_recorder.cpp, over what they use of `std::filesystem::path`.
pub mod Fresh
use amldigital_fpv.Prelude.{
  ◌+◌, ◌-◌, Bool, true, not, ◌&&◌, List, [], ◌∷◌, ◌++◌, Option, none, some, ◌==◌, if◌then◌else◌,
}
use amldigital_fpv.Prelude.Int.{ℤ, pos, negsuc, ltb_ℤ, to_signed}
use amldigital_fpv.Text.{bytes, eq_bytes, is_empty}
use amldigital_fpv.Text.Decimal.{leading_digits, stoi, show, pad}
use amldigital_fpv.Dvr.World.{Bytes, FilePath, History, create_directories, Entry, Env}
use amldigital_fpv.Dvr.State.{Recorder}

-- A name split at its last dot, which goes to the second part.
unfoldable pub split_dot : Bytes → Option (Bytes × Bytes)
split_dot [] = none
split_dot (c ∷ cs) = elim (split_dot cs) [
  | some (front, back) ↦ some (c ∷ front, back)
  | none ↦ if c == b'.' then some ([], c ∷ cs) else none
]

-- A leading dot begins no extension.
unfoldable pub stem_of_split : Bytes → Option (Bytes × Bytes) → Bytes
stem_of_split name none = name
stem_of_split name (some (front, back)) = if is_empty front then name else front

unfoldable pub extension_of_split : Option (Bytes × Bytes) → Bytes
extension_of_split none = []
extension_of_split (some (front, back)) = if is_empty front then [] else back

unfoldable pub stem : Bytes → Bytes
unfolding split_dot stem_of_split
stem name = if eq_bytes name (bytes "..") then name else stem_of_split name (split_dot name)

unfoldable pub extension : Bytes → Bytes
unfolding split_dot extension_of_split
extension name = if eq_bytes name (bytes "..") then [] else extension_of_split (split_dot name)

-- A path split behind its last slash: the directory, with that slash, and the file's name.
unfoldable pub split_slash : FilePath → Bytes × Bytes
split_slash [] = ([], [])
split_slash (c ∷ cs) =
    let (dir, name) = split_slash cs in
    if is_empty dir then (if c == b'/' then (c ∷ [], name) else ([], c ∷ name)) else (c ∷ dir, name)

unfoldable pub filename : FilePath → Bytes
unfolding split_slash
filename path = (split_slash path).1

-- The slashes at the end of a directory go, but for the root's.
unfoldable pub drop_slashes : Bytes → Bytes
drop_slashes [] = []
drop_slashes (c ∷ cs) =
    let rest = drop_slashes cs in if is_empty rest && c == b'/' then [] else c ∷ rest

unfoldable pub parent_path : FilePath → FilePath
unfolding split_slash drop_slashes
parent_path path =
    let dir = (split_slash path).0 in
    if is_empty dir then [] else if is_empty (drop_slashes dir) then bytes "/" else drop_slashes dir

-- `dir / name`
unfoldable pub ends_in_slash : Bytes → Bool
ends_in_slash [] = true
ends_in_slash (c ∷ []) = c == b'/'
ends_in_slash (c ∷ d ∷ cs) = ends_in_slash (d ∷ cs)

unfoldable pub join : FilePath → Bytes → FilePath
unfolding ends_in_slash
join dir name = if ends_in_slash dir then dir ++ name else dir ++ (b'/' ∷ name)

-- The number that an entry of the directory counts for, if it does: that of the digits which the
-- name of an .mp4 file begins with. `stoi` throws on a number that is no `int`.
unfoldable pub index_of_digits : Bytes → Option ℤ
index_of_digits [] = none
index_of_digits (d ∷ ds) = stoi (d ∷ ds)

unfoldable pub entry_index : Entry → Option ℤ
unfolding index_of_digits
entry_index entry =
    if not entry.is_regular_file
    then none
    else if not (eq_bytes (extension entry.name) (bytes ".mp4"))
    then none
    else index_of_digits (leading_digits (stem entry.name))

unfoldable pub larger : ℤ → Option ℤ → ℤ
larger max_index none = max_index
larger max_index (some value) = if ltb_ℤ max_index value then value else max_index

unfoldable pub max_index_from : ℤ → List Entry → ℤ
unfolding larger
max_index_from max_index [] = max_index
max_index_from max_index (e ∷ es) = max_index_from (larger max_index (entry_index e)) es

-- `max_index + 1`, as an `int`.
unfoldable pub next_index : ℤ → ℤ
next_index (pos n) = to_signed 31 (n + 1)
next_index (negsuc n) = if n == 0 then pos 0 else negsuc (n - 1)

unfoldable pub incremental_name : List Entry → Bytes
unfolding next_index
incremental_name es = pad 4 (show (next_index (max_index_from (negsuc 0) es))) ++ bytes ".mp4"

unfoldable pub make_incremental_filename : Env → History → FilePath → FilePath
unfolding incremental_name join
make_incremental_filename env h dir =
    join dir (incremental_name (if env.exists h dir then env.entries h dir else []))

-- The first entry of a base that is a directory.
unfoldable pub first_directory : FilePath → List Entry → Option FilePath
unfolding join
first_directory base [] = none
first_directory base (e ∷ es) =
    if e.is_directory then some (join base e.name) else first_directory base es

unfoldable pub search_bases : Env → History → List FilePath → Option FilePath
unfolding first_directory
search_bases env h [] = none
search_bases env h (base ∷ bases) =
    elim (first_directory base (if env.exists h base then env.entries h base else [])) [
      | some dir ↦ some dir
      | none ↦ search_bases env h bases
    ]

-- The empty path where there is no place to record to.
unfoldable pub find_default_media_root : Env → History → FilePath
unfolding search_bases
find_default_media_root env h =
    elim (search_bases env h (bytes "/var/media" ∷ bytes "/media" ∷ bytes "/run/media" ∷ [])) [
      | some dir ↦ dir
      | none ↦ if env.exists h (bytes "/storage") then bytes "/storage" else []
    ]

unfoldable pub make_directories : Env → FilePath → Recorder → Bool × Recorder
make_directories env dir s =
    (env.makes_directories s.history dir, record s { history = create_directories dir ∷ s.history })

-- `create_directories(dir, ec)`, and the next name in it, or the empty path on an error.
unfoldable pub target_in : Env → FilePath → Recorder → FilePath × Recorder
unfolding make_directories make_incremental_filename
target_in env dir s =
    let (made, s') = make_directories env dir s in
    if made then (make_incremental_filename env s'.history dir, s') else ([], s')

-- The override path names a file: its directory is made, whether or not that succeeds.
unfoldable pub fixed_target : Env → FilePath → Recorder → FilePath × Recorder
unfolding make_directories parent_path
fixed_target env path s =
    if is_empty (parent_path path)
    then (path, s)
    else (path, (make_directories env (parent_path path) s).1)

unfoldable pub resolve_target_file : Env → Recorder → FilePath × Recorder
unfolding target_in fixed_target filename
resolve_target_file env s =
    let path = s.override_path in
    if is_empty path
    then (let root = find_default_media_root env s.history in
        if is_empty root then ([], s) else target_in env (join root (bytes "RECORD")) s)
    else if eq_bytes (extension (filename path)) (bytes ".mp4")
    then fixed_target env path s
    else target_in env path s
