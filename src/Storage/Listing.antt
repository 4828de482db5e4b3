-- ===== src/Storage/Listing.antt =====
-- What Storage::list_directory returns.
use diarkis.Base.{
  ℕ, zero, suc, ◌<◌, Option, none, some, true, false, ◌||◌, List, [], ◌∷◌, ◌++◌, Bytes, same, map,
  length, ◌≡◌, ◌⊎◌, refl, ◌∙◌, ap, inl, inr, Bool-cases, arith, append_assoc, if◌then◌else◌,
}
use diarkis.Error.{result_ok, Result, value, failure}
use diarkis.Path.{dot, dot_dot, slash, validate_path, resolve_path}
use diarkis.Posix.{Posix, returned}
use diarkis.Posix.Laws.{Outcome-cases}
use diarkis.Storage.Monad.{Storage, Run, ends, blocks, spins, and_then}
use diarkis.Storage.Entries.{FileInfo, entry_info, list_loop, list_directory_at, list_directory}

-- What list_directory relies on of the calls on directories: `entries` are the names in a directory in the
-- order that ::readdir finds them, `listing` those that it will still find on an open one, `errors`
-- counts the calls of ::readdir that have failed. It returns NULL at the end of a directory and on an error.
pub record DirectoryLaws {W : Type 0} (os : Posix W) : Type 0 where
  pub entries : W → Bytes → Option (List Bytes)
  pub listing : W → ℕ → List Bytes
  pub errors : W → ℕ
  pub opened :
      (p : Bytes) (d : ℕ) (w w' : W)
      → os.open_directory p w ≡ (returned d, w')
      → (entries w p ≡ some (listing w' d)) × (errors w' ≡ errors w)
  pub found :
      (d : ℕ) (name : Bytes) (w w' : W)
      → os.read_entry d w ≡ (some name, w')
      → (listing w d ≡ name ∷ listing w' d) × (errors w' ≡ errors w)
  pub at_null :
      (d : ℕ) (w w' : W)
      → os.read_entry d w ≡ (none, w')
      → ((listing w d ≡ []) × (errors w' ≡ errors w)) ⊎ (errors w < errors w')
  pub stat_kept :
      (p : Bytes) (d : ℕ) (w : W)
      → (listing (os.stat_path p w).1 d ≡ listing w d) × (errors (os.stat_path p w).1 ≡ errors w)
  pub closed : (d : ℕ) (w : W) → errors (os.close_directory d w) ≡ errors w

-- The names but `.` and `..`.
abbrev pub visible : List Bytes → List Bytes
visible [] = []
visible (name ∷ names) =
    let rest = visible names in if same name dot || same name dot_dot then rest else name ∷ rest

abbrev pub name_of : FileInfo → Bytes
name_of info = info.name

map-append : (xs ys : List FileInfo) → map name_of (xs ++ ys) ≡ map name_of xs ++ map name_of ys
map-append [] ys = refl
map-append (x ∷ xs) ys = ap (◌∷◌ x.name) (map-append xs ys)

next-cases :
    {W : Type 0} (r : Option Bytes × W)
    → ((name : Bytes) × ((w : W) × (r ≡ (some name, w)))) ⊎ ((w : W) × (r ≡ (none, w)))
next-cases (some name, w) = inl (name, (w, refl))
next-cases (none, w) = inr (w, refl)

module _ {W : Type 0} (os : Posix W) (laws : DirectoryLaws os) where
  open laws use {entries, listing, errors}

  -- Between these worlds no ::readdir has failed, and no name is missing; or one has failed.
  abbrev pub Complete : W → W → List Bytes → Type 0
  Complete w w' missing = ((missing ≡ []) × (errors w' ≡ errors w)) ⊎ (errors w < errors w')

  -- The loop ended, with a beginning of these names, complete but for a failed ::readdir, and with the
  -- lock table and base path as in `s`.
  abbrev Collected : Storage W → List Bytes → Run (List FileInfo × Storage W) → Type 0
  Collected s names (ends (infos, t)) =
      ((missing : List Bytes) × ((map name_of infos ++ missing ≡ names)
          × Complete s.world t.world missing))
      × (t.file_locker ≡ s.file_locker)
      × (t.base_path ≡ s.base_path)
  Collected s names blocks = ⊥
  Collected s names spins = ⊥

  Collected-from :
      (s s' : Storage W) (names : List Bytes) (r : Run (List FileInfo × Storage W))
      → errors s'.world ≡ errors s.world
      → s'.file_locker ≡ s.file_locker
      → s'.base_path ≡ s.base_path
      → Collected s' names r
      → Collected s names r
  Collected-from s s' names (ends (infos, t)) calm locks base ((missing, (all, how)), kept, kept') =
      (
        (
          missing,
          (
            all,
            elim how [
              | inl (nothing, none_failed) ↦ inl (nothing, none_failed ∙ calm)
              | inr more ↦ inr (omega (arith, more, calm))
            ],
          ),
        ),
        kept ∙ locks,
        kept' ∙ base,
      )
  Collected-from s s' names blocks calm locks base h = h
  Collected-from s s' names spins calm locks base h = h

  -- What entry_info gives.
  entry_info-runs :
      (full_path name : Bytes) (s : Storage W)
      → (info : FileInfo) × ((entry_info os full_path name s
            ≡ ends
                (info, record s { world = (os.stat_path (full_path ++ slash ∷ name) s.world).1 }))
          × (info.name ≡ name))
  unfolding entry_info
  entry_info-runs full_path name s =
      elim (Outcome-cases (os.stat_path (full_path ++ slash ∷ name) s.world)) [
        | inl (st, w, e) ↦ (
          record { name = name; is_directory = st.is_directory; size = st.size },
          (ground arith, refl),
        )
        | inr (err, w, e) ↦
            (record { name = name; is_directory = false; size = 0 }, (ground arith, refl))
      ]

  list_loop-Collected :
      (fuel dir : ℕ) (full_path : Bytes) (items : List FileInfo) (s : Storage W)
      → length (listing s.world dir) < fuel
      → Collected s
          (map name_of items ++ visible (listing s.world dir))
          (list_loop os fuel dir full_path items s)
  unfolding list_loop
  list_loop-Collected zero dir full_path items s lt = absurd (omega (arith, lt))
  list_loop-Collected (suc fuel) dir full_path items s lt =
      elim (next-cases (os.read_entry dir s.world)) [
        | inr (w, e) ↦
            let how = laws.at_null dir s.world w e in
            let run : list_loop os (suc fuel) dir full_path items s
                ≡ ends (items, record s { world = w }) =
              ground arith in
            rw run (
              (
                visible (listing s.world dir),
                (
                  refl,
                  elim how [
                    | inl (nothing, none_failed) ↦ inl (rw nothing refl, none_failed)
                    | inr more ↦ inr more
                  ],
                ),
              ),
              refl,
              refl,
            )
        | inl (name, (w, e)) ↦
            let (follows, none_failed) = laws.found dir name s.world w e in
            let s' : Storage W = record s { world = w } in
            elim (Bool-cases (same name dot || same name dot_dot)) [
              | inl hidden ↦
                  let run : list_loop os (suc fuel) dir full_path items s
                      ≡ list_loop os fuel dir full_path items s' =
                    ground arith in
                  let there : visible (listing s.world dir) ≡ visible (listing w dir) =
                    ground (arith, follows, hidden) in
                  rw run (
                    rw there (
                      Collected-from s s' _ _ none_failed refl refl (
                        list_loop-Collected fuel dir full_path items s'
                          (ground (arith, follows, lt)))))
              | inr shown ↦
                  let (info, (stat, named)) = entry_info-runs full_path name s' in
                  let w' = (os.stat_path (full_path ++ slash ∷ name) w).1 in
                  let later : Storage W = record s { world = w' } in
                  let run : list_loop os (suc fuel) dir full_path items s
                      ≡ list_loop os fuel dir full_path (items ++ info ∷ []) later =
                    ground (arith, stat) in
                  let (kept, none_failed') = laws.stat_kept (full_path ++ slash ∷ name) dir w in
                  let there : map name_of items ++ visible (listing s.world dir)
                      ≡ map name_of (items ++ info ∷ []) ++ visible (listing w' dir) =
                    ground (
                      arith,
                      follows,
                      shown,
                      kept,
                      named,
                      map-append items (info ∷ []),
                      append_assoc (map name_of items) (name ∷ []) (visible (listing w' dir)),
                    ) in
                  rw run (
                    rw there (
                      Collected-from s later _ _ (none_failed' ∙ none_failed) refl refl (
                        list_loop-Collected fuel dir full_path (items ++ info ∷ []) later
                          (ground (arith, follows, kept, lt)))))
            ]
      ]

  -- The values are the names that are visible, complete but for a failed ::readdir; or it has failed; the
  -- lock table is as in `s` in either case.
  abbrev pub Listed : Storage W → List Bytes → Run (Result (List FileInfo) × Storage W) → Type 0
  Listed s names (ends (value infos, t)) =
      ((missing : List Bytes) × ((map name_of infos ++ missing ≡ visible names)
          × Complete s.world t.world missing))
      × (t.file_locker ≡ s.file_locker)
  Listed s names (ends (failure e, t)) = t.file_locker ≡ s.file_locker
  Listed s names blocks = ⊥
  Listed s names spins = ⊥

  closed-Listed :
      (dir : ℕ) (s : Storage W) (names : List Bytes) (r : Run (List FileInfo × Storage W))
      → Collected s (visible names) r
      → Listed s names (
          and_then r
            λ items t. ends (value items, record t { world = os.close_directory dir t.world }))
  closed-Listed dir s names (ends (infos, t)) ((missing, (all, how)), kept, kept') =
      ((missing, (all, rw (laws.closed dir t.world) how)), kept)
  closed-Listed dir s names blocks h = h
  closed-Listed dir s names spins h = h

  -- Over calls on directories that meet the laws, list_directory on an accepted path, where the
  -- directory has these names, with fuel above their number, ends without waiting for a lock, and
  -- leaves the lock table as it was: a value that it returns is a beginning of the names but `.`
  -- and `..`, in the directory's order, and all of them when no ::readdir has failed; a ::readdir
  -- that fails is no error.
  pub list_directory-Listed :
      (fuel : ℕ) (path : Bytes) (names : List Bytes) (s : Storage W)
      → result_ok (validate_path path) ≡ true
      → entries s.world (resolve_path s.base_path path) ≡ some names
      → length names < fuel
      → Listed s names (list_directory os fuel path s)
  unfolding list_directory list_directory_at
  list_directory-Listed fuel path names s valid there lt =
      let full_path = resolve_path s.base_path path in
      elim (Outcome-cases (os.open_directory full_path s.world)) [
        | inl (dir, w, e) ↦
            let (opened, none_failed) = laws.opened full_path dir s.world w e in
            let same_names : listing w dir ≡ names = ground (arith, opened, there) in
            let s' : Storage W = record s { world = w } in
            let run : list_directory os fuel path s
                ≡ and_then (list_loop os fuel dir full_path [] s') (λ items t.
                  ends (value items, record t { world = os.close_directory dir t.world })) =
              ground (arith, valid) in
            rw run (
              closed-Listed dir s names (list_loop os fuel dir full_path [] s') (
                Collected-from s s' _ _ none_failed refl refl (
                  rw⁻¹ same_names (
                    list_loop-Collected fuel dir full_path [] s'
                      (ground (arith, same_names, lt))))))
        | inr (err, w, e) ↦ ground (arith, valid)
      ]
