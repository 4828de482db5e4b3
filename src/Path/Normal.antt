-- ===== src/Path/Normal.antt =====
-- normalize_path of src/storage.cc, against the names of the path.
use diarkis.Base.{
  ℕ, List, [], ◌∷◌, ◌++◌, ◌≡◌, refl, sym, ap, ◌∙◌, ◌⊎◌, inl, inr, Bool, true, false, Bytes,
  is_empty, ◌==◌, append_assoc, append-nil, arith, Bool-cases, ==_iff,
}
use diarkis.Path.{slash, normalize_loop, drop_last_slash, normalize_path}
use diarkis.Path.Names.{flush, names_from, names, join}

-- Each name with a slash behind it.
prefix : List Bytes → Bytes
prefix [] = []
prefix (n ∷ ns) = n ++ slash ∷ prefix ns

prefix-append : (ns ms : List Bytes) → prefix (ns ++ ms) ≡ prefix ns ++ prefix ms
unfolding prefix
prefix-append [] ms = refl
prefix-append (n ∷ ns) ms =
    ground (arith, prefix-append ns ms, append_assoc n (slash ∷ prefix ns) (prefix ms))

drop_last_slash-append :
    (s : Bytes) (c : ℕ) (t : Bytes) → drop_last_slash (s ++ c ∷ t) ≡ s ++ drop_last_slash (c ∷ t)
unfolding drop_last_slash
drop_last_slash-append [] c t = refl
drop_last_slash-append (d ∷ []) c t = refl
drop_last_slash-append (d ∷ e ∷ s) c t = ap (◌∷◌ d) (drop_last_slash-append (e ∷ s) c t)

drop_last_slash-prefix : (ns : List Bytes) → drop_last_slash (prefix ns) ≡ join ns
unfolding prefix join drop_last_slash
drop_last_slash-prefix [] = refl
drop_last_slash-prefix (n ∷ []) = drop_last_slash-append n slash [] ∙ append-nil n
drop_last_slash-prefix (n ∷ [] ∷ ns) =
    drop_last_slash-append n slash (prefix ([] ∷ ns))
    ∙ ap (λ t. n ++ slash ∷ t) (drop_last_slash-prefix ([] ∷ ns))
drop_last_slash-prefix (n ∷ (e ∷ m) ∷ ns) =
    drop_last_slash-append n slash (prefix ((e ∷ m) ∷ ns))
    ∙ ap (λ t. n ++ slash ∷ t) (drop_last_slash-prefix ((e ∷ m) ∷ ns))

join-append : (ns : List Bytes) (n : Bytes) → join (ns ++ n ∷ []) ≡ prefix ns ++ n
unfolding join prefix
join-append [] n = refl
join-append (m ∷ []) n = sym (append_assoc m (slash ∷ []) n)
join-append (m ∷ k ∷ ns) n =
    ap (λ t. m ++ slash ∷ t) (join-append (k ∷ ns) n)
    ∙ sym (append_assoc m (slash ∷ prefix (k ∷ ns)) n)

flush-append : (w : Bytes) (c : ℕ) → flush (w ++ c ∷ []) ≡ (w ++ c ∷ []) ∷ []
flush-append [] c = refl
flush-append (d ∷ w) c = refl

is_empty-append : (s t : Bytes) (c : ℕ) → is_empty (s ++ (t ++ c ∷ [])) ≡ false
is_empty-append [] [] c = refl
is_empty-append [] (d ∷ t) c = refl
is_empty-append (d ∷ s) t c = refl

drop_last_slash_word :
    (ns : List Bytes) (w : Bytes) (c : ℕ)
    → (c == slash) ≡ false
    → drop_last_slash (prefix ns ++ (w ++ c ∷ [])) ≡ prefix ns ++ (w ++ c ∷ [])
unfolding drop_last_slash
drop_last_slash_word ns w c h =
    rw (← append_assoc (prefix ns) w (c ∷ []))
      (drop_last_slash-append (prefix ns ++ w) c [] ∙ rw h refl)

prefix_word : (ns : List Bytes) (w : Bytes) → prefix (ns ++ w ∷ []) ≡ (prefix ns ++ w) ++ slash ∷ []
unfolding prefix
prefix_word ns w = prefix-append ns (w ∷ []) ∙ sym (append_assoc (prefix ns) w (slash ∷ []))

-- The loop between two names, and inside one, after the names `ns`.
mutual
  unfolding normalize_loop drop_last_slash names_from prefix

  between :
      (ns : List Bytes) (last : Bool) (path : Bytes)
      → (ns ≡ []) ⊎ (last ≡ true)
      → drop_last_slash (normalize_loop (prefix ns) last path) ≡ join (ns ++ names_from [] path)
  between ns last [] h = drop_last_slash-prefix ns ∙ ap join (sym (append-nil ns))
  between [] last (c ∷ path) h =
      ground (
        arith,
        between [] true path (inr refl),
        λ (e : (c == slash) ≡ false). inside [] [] c path e,
      )
  between (n ∷ ns) last (c ∷ path) h = ground (
    arith,
    between (n ∷ ns) true path (inr refl),
    λ (e : (c == slash) ≡ false). inside (n ∷ ns) [] c path e,
  )

  inside :
      (ns : List Bytes) (w : Bytes) (c : ℕ) (path : Bytes)
      → (c == slash) ≡ false
      → drop_last_slash (normalize_loop (prefix ns ++ (w ++ c ∷ [])) false path)
        ≡ join (ns ++ names_from (w ++ c ∷ []) path)
  inside ns w c [] h =
      rw (flush-append w c, join-append ns (w ++ c ∷ [])) (drop_last_slash_word ns w c h)
  inside ns w c (d ∷ path) h = elim (Bool-cases (d == slash)) [
    | inl gap ↦
        rw
          (
            gap,
            is_empty-append (prefix ns) w c,
            flush-append w c,
            (==_iff d slash).0 gap,
            ← prefix_word ns (w ++ c ∷ []),
            ← append_assoc ns ((w ++ c ∷ []) ∷ []) (names_from [] path),
          )
          (between (ns ++ (w ++ c ∷ []) ∷ []) true path (inr refl))
    | inr more ↦
        rw (more, append_assoc (prefix ns) (w ++ c ∷ []) (d ∷ []))
          (inside ns (w ++ c ∷ []) d path more)
  ]

-- normalize_path returns the names of the path joined by single slashes: no leading, doubled or
-- trailing slash is left, and no name is lost or changed.
pub normalize_path-join : (path : Bytes) → normalize_path path ≡ join (names path)
unfolding normalize_path names prefix
normalize_path-join path = between [] false path (inl refl)
