-- ===== src/Base/Table.antt =====
-- std::unordered_map with string keys, as an association list: find, operator[]= and erase.
use diarkis.Base.{
  List, [], ◌∷◌, ◌≡◌, refl, Option, none, some, Bytes, same, same_iff, if◌then◌else◌, arith,
}

module _ {ℓ} {V : Type ℓ} where
  unfoldable pub find : Bytes → List (Bytes × V) → Option V
  unfolding same
  find k [] = none
  find k ((j, v) ∷ t) = if same j k then some v else find k t

  unfoldable pub put : Bytes → V → List (Bytes × V) → List (Bytes × V)
  unfolding same
  put k v [] = (k, v) ∷ []
  put k v ((j, w) ∷ t) = if same j k then (j, v) ∷ t else (j, w) ∷ put k v t

  unfoldable pub erase : Bytes → List (Bytes × V) → List (Bytes × V)
  unfolding same
  erase k [] = []
  erase k ((j, v) ∷ t) = let rest = erase k t in if same j k then rest else (j, v) ∷ rest

  pub find-put :
      (k j : Bytes) (v : V) (t : List (Bytes × V))
      → find j (put k v t) ≡ (if same k j then some v else find j t)
  unfolding find put
  find-put k j v [] = refl
  find-put k j v ((i, w) ∷ t) =
      ground (arith, same_iff k j, same_iff i k, same_iff i j, find-put k j v t)

  pub find-erase :
      (k j : Bytes) (t : List (Bytes × V))
      → find j (erase k t) ≡ (if same k j then none else find j t)
  unfolding find erase
  find-erase k j [] = ground arith
  find-erase k j ((i, w) ∷ t) =
      ground (arith, same_iff k j, same_iff i k, same_iff i j, find-erase k j t)

  erase_of_none : (k : Bytes) (t : List (Bytes × V)) → find k t ≡ none → erase k t ≡ t
  unfolding find erase
  erase_of_none k [] h = refl
  erase_of_none k ((j, v) ∷ t) h = ground (arith, erase_of_none k t)

  -- What was put under a new key goes without a trace.
  pub erase-put :
      (k : Bytes) (v : V) (t : List (Bytes × V)) → find k t ≡ none → erase k (put k v t) ≡ t
  unfolding find erase put
  erase-put k v [] h = ground (arith, same_iff k k)
  erase-put k v ((j, w) ∷ t) h = ground (arith, erase-put k v t)

  pub put-put : (k : Bytes) (v w : V) (t : List (Bytes × V)) → put k v (put k w t) ≡ put k v t
  unfolding put
  put-put k v w [] = ground (arith, same_iff k k)
  put-put k v w ((j, u) ∷ t) = ground (arith, put-put k v w t)

  pub put_self : (k : Bytes) (v : V) (t : List (Bytes × V)) → find k t ≡ some v → put k v t ≡ t
  unfolding find put
  put_self k v [] h = cc
  put_self k v ((j, u) ∷ t) h = ground (arith, put_self k v t)
