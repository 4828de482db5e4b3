-- ===== src/Path/Examples.antt =====
-- Short paths.
use diarkis.Base.{◌≡◌, ◌≢◌, ◌↔◌, refl, some, true, false, List, [], ◌∷◌, ◌++◌, Bytes, All, same}
use diarkis.Path.{is_absolute, has_no_nul, dot_dot, is_safe_path, normalize_path, resolve_path}
use diarkis.Path.Names.{names, walk}
use diarkis.Path.Safety.{is_safe_path_iff}
use diarkis.Path.Resolve.{resolve_path-eq_iff, resolve_path_confined}

-- a/b
abbrev a_b : Bytes
a_b = 0x61 ∷ 0x2f ∷ 0x62 ∷ []

-- a//b/
abbrev a_b_loose : Bytes
a_b_loose = 0x61 ∷ 0x2f ∷ 0x2f ∷ 0x62 ∷ 0x2f ∷ []

-- d
abbrev base : Bytes
base = 0x64 ∷ []

safe : is_safe_path a_b ≡ true
unfolding is_safe_path
safe = refl

resolved : names (resolve_path base a_b) ≡ names base ++ ((0x61 ∷ []) ∷ [] ++ (0x62 ∷ []) ∷ [])
unfolding names resolve_path normalize_path
resolved = refl

walk-base : walk [] (names base) ≡ some ((0x64 ∷ []) ∷ [])
unfolding names walk same
walk-base = refl

resolve_path_confined_example :
    (below : List Bytes) × (walk [] (names base ++ (0x61 ∷ []) ∷ [])
      ≡ some (below ++ (0x64 ∷ []) ∷ []))
resolve_path_confined_example =
    resolve_path_confined base a_b [] ((0x64 ∷ []) ∷ []) ((0x61 ∷ []) ∷ []) ((0x62 ∷ []) ∷ []) safe
      walk-base resolved

is_safe_path_iff_example :
    (is_safe_path a_b ≡ true)
    ↔ ((is_absolute a_b ≡ false) × All (λ n. n ≢ dot_dot) (names a_b) × (has_no_nul a_b ≡ true))
is_safe_path_iff_example = is_safe_path_iff a_b

resolve_path-eq_iff_example :
    (resolve_path base a_b ≡ resolve_path base a_b_loose) ↔ (names a_b ≡ names a_b_loose)
resolve_path-eq_iff_example = resolve_path-eq_iff base a_b a_b_loose
