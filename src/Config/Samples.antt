-- ===== src/Config/Samples.antt =====
-- A line of a configuration, and the look-up of its value.
use amldigital_fpv.Prelude.{◌++◌, ℕ, ◌≡◌, List, [], ◌∷◌, some}
use mathlib.Core.Option
use amldigital_fpv.Text.{bytes}
use amldigital_fpv.Config.{get, split_lines, load}
use amldigital_fpv.Config.Assigned.{last_assigned, get-load}

abbrev file : List ℕ
file = bytes "fps = 30" ++ 10 ∷ bytes "# fps=1" ++ 10 ∷ bytes " fps=60 " ++ 10 ∷ bytes "=5"

get-load_example :
    get (bytes "fps") (load (some file) []).1
    ≡ Option.bind (some file) (λ content. last_assigned (bytes "fps") (split_lines content))
get-load_example = get-load (bytes "fps") (some file) []
