-- ===== src/Path.antt =====
-- src/storage.cc: the checks and the normalisation of paths. A path is the list of its bytes; the
-- library calls (std::getline, std::string::find) are the loops that their contracts describe.
pub mod Names
pub mod Normal
pub mod Safety
pub mod Resolve
mod Examples
use diarkis.Base.{
  ℕ, List, [], ◌∷◌, ◌++◌, Option, none, some, Bool, true, false, not, ◌&&◌, ◌||◌, Bytes, text,
  is_empty, same, ltb, ◌==◌, length, if◌then◌else◌,
}
use diarkis.Error.{VoidResult, void_ok, fail, invalid_path}

abbrev pub slash : ℕ
slash = 0x2f

abbrev pub dot : Bytes
dot = 0x2e ∷ []

abbrev pub dot_dot : Bytes
dot_dot = 0x2e ∷ 0x2e ∷ []

-- !path.empty() && path[0] == '/'
unfoldable pub is_absolute : Bytes → Bool
is_absolute [] = false
is_absolute (c ∷ path) = c == slash

-- The lines that std::getline(iss, component, '/') gives; `line` is what it has read of this one.
-- At the end of the input an empty rest is no line.
unfoldable pub getlines : Bytes → Bytes → List Bytes
getlines line [] = if is_empty line then [] else line ∷ []
getlines line (c ∷ rest) =
    let next = getlines [] rest in
    let longer = getlines (line ++ c ∷ []) rest in if c == slash then line ∷ next else longer

-- The loop of is_safe_path: `none` is its `return false`.
unfoldable pub collect : List Bytes → Option (List Bytes)
unfolding same
collect [] = some []
collect (component ∷ lines) =
    let components = collect lines in
    if is_empty component || same component dot
    then components
    else if same component dot_dot
    then none
    else elim components [ none ↦ none | some cs ↦ some (component ∷ cs) ]

-- comp.find('\0') == npos
unfoldable pub has_no_nul : Bytes → Bool
has_no_nul [] = true
has_no_nul (c ∷ s) = not (c == 0) && has_no_nul s

unfoldable pub all_no_nul : List Bytes → Bool
unfolding has_no_nul
all_no_nul [] = true
all_no_nul (comp ∷ components) = has_no_nul comp && all_no_nul components

unfoldable pub is_safe_path : Bytes → Bool
unfolding is_absolute getlines collect all_no_nul
is_safe_path path = if is_absolute path then false else elim (collect (getlines [] path)) [
  | none ↦ false
  | some components ↦ all_no_nul components
]

-- The loop of normalize_path, over its `result` and `last_was_slash`.
unfoldable pub normalize_loop : Bytes → Bool → Bytes → Bytes
normalize_loop result last [] = result
normalize_loop result last (c ∷ path) =
    let kept = normalize_loop (result ++ c ∷ []) true path in
    let skipped = normalize_loop result true path in
    let longer = normalize_loop (result ++ c ∷ []) false path in
    if c == slash then (if not last && not (is_empty result) then kept else skipped) else longer

-- if (!result.empty() && result.back() == '/') result.pop_back();
unfoldable pub drop_last_slash : Bytes → Bytes
drop_last_slash [] = []
drop_last_slash (c ∷ []) = if c == slash then [] else c ∷ []
drop_last_slash (c ∷ d ∷ s) = c ∷ drop_last_slash (d ∷ s)

unfoldable pub normalize_path : Bytes → Bytes
unfolding normalize_loop drop_last_slash
normalize_path path = drop_last_slash (normalize_loop [] false path)

-- while (!clean.empty() && clean[0] == '/') clean = clean.substr(1);
unfoldable pub drop_first_slashes : Bytes → Bytes
drop_first_slashes [] = []
drop_first_slashes (c ∷ s) = let rest = drop_first_slashes s in if c == slash then rest else c ∷ s

-- Storage::resolve_path, with the storage's base_path_
unfoldable pub resolve_path : Bytes → Bytes → Bytes
unfolding normalize_path drop_first_slashes
resolve_path base_path relative_path =
    let clean = drop_first_slashes (normalize_path relative_path) in
    if is_empty clean then base_path else base_path ++ slash ∷ clean

abbrev pub max_path_length : ℕ
max_path_length = 4096

-- Storage::validate_path
unfoldable pub validate_path : Bytes → VoidResult
unfolding is_safe_path
validate_path path =
    if ltb max_path_length (length path)
    then fail (record { code = invalid_path; message = text "Path too long" })
    else if not (is_safe_path path)
    then fail
        (record { code = invalid_path; message = text "Invalid path: contains path traversal" })
    else void_ok

-- The loop of the constructor Storage::Storage: the trailing slashes of base_path_ go.
unfoldable pub drop_last_slashes : Bytes → Bytes
drop_last_slashes [] = []
drop_last_slashes (c ∷ s) =
    let rest = drop_last_slashes s in if is_empty rest && c == slash then [] else c ∷ rest
