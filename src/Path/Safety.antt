-- ===== src/Path/Safety.antt =====
-- is_safe_path of src/storage.cc, and the lexical walk along the paths that it accepts.
use diarkis.Base.{
  List, [], ◌∷◌, ◌++◌, ◌≡◌, ◌≢◌, ◌↔◌, refl, Option, none, some, Bool, true, false, not, ◌&&◌, Bytes,
  same, same_iff, All, inl, inr, Bool-cases, append_assoc, arith,
}
use diarkis.Path.{
  dot, dot_dot, is_absolute, getlines, collect, has_no_nul, all_no_nul, is_safe_path,
}
use diarkis.Path.Names.{names_from, names, walk}

-- Empty lines do not count.
collect-getlines :
    (line path : Bytes) → collect (getlines line path) ≡ collect (names_from line path)
unfolding getlines names_from collect
collect-getlines [] [] = refl
collect-getlines (c ∷ line) [] = refl
collect-getlines [] (d ∷ path) =
    ground (arith, collect-getlines [] path, collect-getlines (d ∷ []) path)
collect-getlines (c ∷ line) (d ∷ path) =
    ground (arith, collect-getlines [] path, collect-getlines ((c ∷ line) ++ d ∷ []) path)

-- The two checks of the code, after the early return.
abbrev checked : Option (List Bytes) → Bool
checked none = false
checked (some components) = all_no_nul components

unfoldable pub no_dot_dot : List Bytes → Bool
no_dot_dot [] = true
no_dot_dot (n ∷ ns) = not (same n dot_dot) && no_dot_dot ns

checked-collect : (ns : List Bytes) → checked (collect ns) ≡ (no_dot_dot ns && all_no_nul ns)
unfolding collect all_no_nul no_dot_dot same
checked-collect [] = refl
checked-collect (n ∷ ns) = ground (arith, checked-collect ns, same_iff n dot, same_iff n [])

has_no_nul-append : (s t : Bytes) → has_no_nul (s ++ t) ≡ (has_no_nul s && has_no_nul t)
unfolding has_no_nul
has_no_nul-append [] t = refl
has_no_nul-append (c ∷ s) t = ground (arith, has_no_nul-append s t)

all_no_nul-names_from :
    (name path : Bytes) → all_no_nul (names_from name path) ≡ (has_no_nul name && has_no_nul path)
unfolding all_no_nul names_from
all_no_nul-names_from [] [] = refl
all_no_nul-names_from (d ∷ name) [] = ground arith
all_no_nul-names_from [] (c ∷ path) =
    ground (arith, all_no_nul-names_from [] path, all_no_nul-names_from (c ∷ []) path)
all_no_nul-names_from (d ∷ name) (c ∷ path) = ground (
  arith,
  all_no_nul-names_from [] path,
  all_no_nul-names_from ((d ∷ name) ++ c ∷ []) path,
  has_no_nul-append name (c ∷ []),
)

no_dot_dot_iff : (ns : List Bytes) → (no_dot_dot ns ≡ true) ↔ All (λ n. n ≢ dot_dot) ns
unfolding no_dot_dot
no_dot_dot_iff [] = (λ h. tt, λ h. refl)
no_dot_dot_iff (n ∷ ns) = ground (arith, no_dot_dot_iff ns, same_iff n dot_dot)

pub is_safe_path_lem :
    (path : Bytes)
    → is_safe_path path ≡ (not (is_absolute path) && (no_dot_dot (names path) && has_no_nul path))
unfolding is_safe_path names has_no_nul
is_safe_path_lem path = ground (
  arith,
  collect-getlines [] path,
  checked-collect (names_from [] path),
  all_no_nul-names_from [] path,
)

-- is_safe_path accepts a path exactly when it does not begin with a slash, no name of it is `..`,
-- and it has no NUL byte.
pub is_safe_path_iff :
    (path : Bytes)
    → (is_safe_path path ≡ true) ↔ (
        (is_absolute path ≡ false) × All (λ n. n ≢ dot_dot) (names path) × (has_no_nul path ≡ true))
is_safe_path_iff path = ground (arith, is_safe_path_lem path, no_dot_dot_iff (names path))

-- A walk with no `..` only goes down.
pub walk_below :
    (ns st : List Bytes)
    → no_dot_dot ns ≡ true
    → (below : List Bytes) × (walk st ns ≡ some (below ++ st))
unfolding walk no_dot_dot
walk_below [] st h = ([], refl)
walk_below (n ∷ ns) st h = elim (Bool-cases (same n dot)) [
  | inl here ↦ let (below, e) = walk_below ns st (ground arith) in (below, ground arith)
  | inr other ↦
      let (below, e) = walk_below ns (n ∷ st) (ground arith) in
      (below ++ n ∷ [], ground (arith, append_assoc below (n ∷ []) st))
]
