-- ===== src/Path/Resolve.antt =====
-- Storage::resolve_path of src/storage.cc and the directories that resolved paths lead to.
use diarkis.Base.{
  List, [], ◌∷◌, ◌++◌, ◌≡◌, ◌↔◌, refl, sym, ap, ◌∙◌, some, Bool, true, not, ◌&&◌, Bytes, is_empty,
  All, All-append, ◌==◌, if◌then◌else◌, append-nil, append_assoc, arith, inl, inr, Bool-cases,
}
use diarkis.Path.{slash, normalize_path, drop_first_slashes, resolve_path, is_safe_path}
use diarkis.Path.Names.{flush, names_from, names, join, names_from-slash, walk, walk-append}
use diarkis.Path.Normal.{normalize_path-join}
use mathlib.Core.List.{append_cancel_left}
use diarkis.Path.Safety.{no_dot_dot, is_safe_path_lem, walk_below}

has_no_slash : Bytes → Bool
has_no_slash [] = true
has_no_slash (c ∷ s) = not (c == slash) && has_no_slash s

-- A name: not empty, and with no slash.
abbrev is_name : Bytes → Bool
is_name n = not (is_empty n) && has_no_slash n

abbrev AreNames : List Bytes → Type 0
AreNames = All λ n. is_name n ≡ true

has_no_slash-append : (s t : Bytes) → has_no_slash (s ++ t) ≡ (has_no_slash s && has_no_slash t)
unfolding has_no_slash
has_no_slash-append [] t = refl
has_no_slash-append (c ∷ s) t = ground (arith, has_no_slash-append s t)

flush-AreNames : (w : Bytes) → has_no_slash w ≡ true → AreNames (flush w)
flush-AreNames [] h = tt
flush-AreNames (c ∷ w) h = (h, tt)

names_from-AreNames : (w path : Bytes) → has_no_slash w ≡ true → AreNames (names_from w path)
unfolding names_from has_no_slash
names_from-AreNames w [] h = flush-AreNames w h
names_from-AreNames w (c ∷ path) h = elim (Bool-cases (c == slash)) [
  | inl gap ↦ rw gap (
      All-append (λ n. is_name n ≡ true) (flush w) (names_from [] path) (flush-AreNames w h)
        (names_from-AreNames [] path refl))
  | inr more ↦
      rw more
        (names_from-AreNames (w ++ c ∷ []) path (rw (has_no_slash-append w (c ∷ []), h, more) refl))
]

names_from_word : (w n : Bytes) → has_no_slash n ≡ true → names_from w n ≡ flush (w ++ n)
unfolding names_from has_no_slash
names_from_word w [] h = ap flush (sym (append-nil w))
names_from_word w (c ∷ n) h =
    ground (arith, names_from_word (w ++ c ∷ []) n, append_assoc w (c ∷ []) n)

flush_name : (n : Bytes) → is_name n ≡ true → flush n ≡ n ∷ []
flush_name [] h = cc
flush_name (c ∷ n) h = refl

names-join : (ns : List Bytes) → AreNames ns → names_from [] (join ns) ≡ ns
unfolding join names_from
names-join [] h = refl
names-join (n ∷ []) h = names_from_word [] n (ground arith) ∙ flush_name n h.0
names-join (n ∷ m ∷ ns) h =
    names_from-slash [] n (join (m ∷ ns))
    ∙ ap (λ t. t ++ names_from [] (join (m ∷ ns)))
        (names_from_word [] n (ground arith) ∙ flush_name n h.0)
    ∙ ap (◌∷◌ n) (names-join (m ∷ ns) h.1)

has_no_slash-nil : has_no_slash [] ≡ true
unfolding has_no_slash
has_no_slash-nil = refl

-- Normalising a normalised path changes nothing.
pub normalize_path_idem :
    (path : Bytes) → normalize_path (normalize_path path) ≡ normalize_path path
unfolding names
normalize_path_idem path =
    rw (normalize_path-join (normalize_path path), normalize_path-join path)
      (ap join (names-join (names path) (names_from-AreNames [] path has_no_slash-nil)))

drop_first_slashes-join : (ns : List Bytes) → AreNames ns → drop_first_slashes (join ns) ≡ join ns
unfolding drop_first_slashes join has_no_slash
drop_first_slashes-join [] h = refl
drop_first_slashes-join ([] ∷ ns) h = cc (h.0)
drop_first_slashes-join ((c ∷ n) ∷ []) h = ground arith
drop_first_slashes-join ((c ∷ n) ∷ m ∷ ns) h = ground arith

is_empty-join : (ns : List Bytes) → AreNames ns → is_empty (join ns) ≡ is_empty ns
unfolding join
is_empty-join [] h = refl
is_empty-join ([] ∷ ns) h = cc (h.0)
is_empty-join ((c ∷ n) ∷ []) h = refl
is_empty-join ((c ∷ n) ∷ m ∷ ns) h = refl

-- The names below the base, behind a slash.
abbrev below_base : List Bytes → Bytes
below_base [] = []
below_base (n ∷ ns) = slash ∷ join (n ∷ ns)

resolve_path_lem : (base path : Bytes) → resolve_path base path ≡ base ++ below_base (names path)
unfolding resolve_path names
resolve_path_lem base path =
    rw
      (
        normalize_path-join path,
        drop_first_slashes-join (names path) (names_from-AreNames [] path has_no_slash-nil),
        is_empty-join (names path) (names_from-AreNames [] path has_no_slash-nil),
      )
      (split (names path))
  where
    split :
        (ns : List Bytes)
        → (if is_empty ns then base else base ++ slash ∷ join ns) ≡ base ++ below_base ns
    split [] = sym (append-nil base)
    split (n ∷ ns) = refl

-- The names of the resolved path are those of the base followed by those of the path.
pub names-resolve_path :
    (base path : Bytes) → names (resolve_path base path) ≡ names base ++ names path
unfolding names
names-resolve_path base path =
    rw resolve_path_lem (split (names path) (names_from-AreNames [] path has_no_slash-nil))
  where
    split :
        (ns : List Bytes)
        → AreNames ns
        → names_from [] (base ++ below_base ns) ≡ names_from [] base ++ ns
    split [] h = rw (append-nil base, append-nil (names_from [] base))
    split (n ∷ ns) h =
        names_from-slash [] base (join (n ∷ ns))
        ∙ ap (λ t. names_from [] base ++ t) (names-join (n ∷ ns) h)

-- Below any base two paths resolve to one file name exactly when they have the same names.
pub resolve_path-eq_iff :
    (base p q : Bytes) → (resolve_path base p ≡ resolve_path base q) ↔ (names p ≡ names q)
resolve_path-eq_iff base p q = (
  λ e.
      append_cancel_left (names base) (names p) (names q)
        (sym (names-resolve_path base p) ∙ ap names e ∙ names-resolve_path base q),
  λ e. rw (resolve_path_lem base p, resolve_path_lem base q, e),
)

no_dot_dot-append : (ns ms : List Bytes) → no_dot_dot (ns ++ ms) ≡ true → no_dot_dot ns ≡ true
unfolding no_dot_dot
no_dot_dot-append [] ms h = refl
no_dot_dot-append (n ∷ ns) ms h = ground (arith, no_dot_dot-append ns ms)

-- Of a path that is_safe_path accepts, resolved below a base whose names lead from the directory
-- `start` to the directory `root`, every beginning that covers the base leads to `root` or to a
-- directory below it. The walk is lexical: symbolic links are not followed.
pub resolve_path_confined :
    (base path : Bytes) (start root done rest : List Bytes)
    → is_safe_path path ≡ true
    → walk start (names base) ≡ some root
    → names (resolve_path base path) ≡ names base ++ (done ++ rest)
    → (below : List Bytes) × (walk start (names base ++ done) ≡ some (below ++ root))
resolve_path_confined base path start root done rest safe e split =
    let own : names path ≡ done ++ rest =
      append_cancel_left (names base) _ _ (sym (names-resolve_path base path) ∙ split) in
    let safe' : no_dot_dot (done ++ rest) ≡ true =
      ap no_dot_dot (sym own) ∙ ground (arith, is_safe_path_lem path) in
    let (below, w) = walk_below done root (no_dot_dot-append done rest safe') in
    (below, walk-append start (names base) done root e ∙ w)
