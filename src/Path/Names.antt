-- ===== src/Path/Names.antt =====
-- An independent reading of a path: the names between its slashes, and the lexical walk along them.
use diarkis.Base.{
  List, [], ◌∷◌, ◌++◌, ◌≡◌, refl, Option, none, some, Bytes, same, ◌==◌, if◌then◌else◌,
  append_assoc, arith,
}
use diarkis.Path.{slash, dot, dot_dot}

-- A name, if there is one.
abbrev pub flush : Bytes → List Bytes
flush [] = []
flush (c ∷ s) = (c ∷ s) ∷ []

-- The names of a path, after the beginning `name` of the first.
unfoldable pub names_from : Bytes → Bytes → List Bytes
names_from name [] = flush name
names_from name (c ∷ path) =
    let next = names_from [] path in
    let longer = names_from (name ++ c ∷ []) path in
    if c == slash then flush name ++ next else longer

unfoldable pub names : Bytes → List Bytes
unfolding names_from
names path = names_from [] path

-- Going down the names from a stack of directories: `.` stays, `..` pops, and fails at the root.
unfoldable pub walk : List Bytes → List Bytes → Option (List Bytes)
walk stack [] = some stack
walk stack (n ∷ ns) =
    let stay = walk stack ns in
    let down = walk (n ∷ stack) ns in
    let up : Option (List Bytes) = elim stack [ [] ↦ none | d ∷ above ↦ walk above ns ] in
    if same n dot then stay else if same n dot_dot then up else down

-- The names joined by single slashes.
unfoldable pub join : List Bytes → Bytes
join [] = []
join (n ∷ []) = n
join (n ∷ m ∷ ns) = n ++ slash ∷ join (m ∷ ns)

-- A slash splits the names.
pub names_from-slash :
    (name s t : Bytes) → names_from name (s ++ slash ∷ t) ≡ names_from name s ++ names_from [] t
unfolding names_from
names_from-slash name [] t = refl
names_from-slash name (c ∷ s) t = ground (
  arith,
  names_from-slash [] s t,
  names_from-slash (name ++ c ∷ []) s t,
  append_assoc (flush name) (names_from [] s) (names_from [] t),
)

-- Walking on is walking further.
pub walk-append :
    (st ns ms st' : List Bytes) → walk st ns ≡ some st' → walk st (ns ++ ms) ≡ walk st' ms
unfolding walk
walk-append st [] ms st' h = ground arith
walk-append [] (n ∷ ns) ms st' h =
    ground (arith, walk-append [] ns ms st', walk-append (n ∷ []) ns ms st')
walk-append (d ∷ st) (n ∷ ns) ms st' h = ground (
  arith,
  walk-append (d ∷ st) ns ms st',
  walk-append (n ∷ d ∷ st) ns ms st',
  walk-append st ns ms st',
)
