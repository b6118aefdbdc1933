-- ===== src/Table.antt =====
-- Go maps and sync.Map with string keys, as lists of entries with distinct keys.
-- Where the code walks over a map, the order of the entries stands for the order that Go chooses.
use nmid.Prelude.{◌+◌, ◌≡◌, refl, Option, none, some, List, [], ◌∷◌, arith, length}
use nmid.Prelude.{if◌then◌else◌, bytes_eq, bytes_eq_iff}
use nmid.Wire.{Bytes}

abbrev pub Table {ℓ} : Type ℓ → Type ℓ
Table V = List (Bytes × V)

module _ {ℓ} {V : Type ℓ} where
  unfoldable pub load : Bytes → Table V → Option V
  load k [] = none
  load k ((i, v) ∷ t) = if bytes_eq i k then some v else load k t

  unfoldable pub store : Bytes → V → Table V → Table V
  store k v [] = (k, v) ∷ []
  store k v ((i, w) ∷ t) = if bytes_eq i k then (i, v) ∷ t else (i, w) ∷ store k v t

  unfoldable pub delete : Bytes → Table V → Table V
  delete k [] = []
  delete k ((i, w) ∷ t) = if bytes_eq i k then t else (i, w) ∷ delete k t

  -- No key stands twice.
  abbrev pub IsUnique : Table V → Type ℓ
  IsUnique [] = Unit
  IsUnique ((i, v) ∷ t) = (load i t ≡ none) × IsUnique t

  -- A new key goes to the end, an old one keeps its place.
  pub load-store :
      (k j : Bytes) (v : V) (t : Table V)
      → load j (store k v t) ≡ (if bytes_eq k j then some v else load j t)
  unfolding load store
  load-store k j v [] = refl
  load-store k j v ((i, w) ∷ t) =
      ground (arith, load-store k j v t, bytes_eq_iff i k, bytes_eq_iff i j, bytes_eq_iff k j)

  pub load-delete :
      (k j : Bytes) (t : Table V)
      → IsUnique t
      → load j (delete k t) ≡ (if bytes_eq k j then none else load j t)
  unfolding load delete
  load-delete k j [] u = ground arith
  load-delete k j ((i, w) ∷ t) u =
      ground (arith, load-delete k j t, bytes_eq_iff i k, bytes_eq_iff i j, bytes_eq_iff k j)

  pub store-IsUnique : (k : Bytes) (v : V) (t : Table V) → IsUnique t → IsUnique (store k v t)
  unfolding store load
  store-IsUnique k v [] u = (refl, tt)
  store-IsUnique k v ((i, w) ∷ t) u =
      ground (arith, store-IsUnique k v t, load-store k i v t, bytes_eq_iff i k, bytes_eq_iff k i)

  pub delete-IsUnique : (k : Bytes) (t : Table V) → IsUnique t → IsUnique (delete k t)
  unfolding delete load
  delete-IsUnique k [] u = tt
  delete-IsUnique k ((i, w) ∷ t) u =
      ground (arith, delete-IsUnique k t, load-delete k i t, bytes_eq_iff i k, bytes_eq_iff k i)

  -- The number of entries, which the code counts by itself.
  pub length-store_new :
      (k : Bytes) (v : V) (t : Table V) → load k t ≡ none → length (store k v t) ≡ length t + 1
  unfolding store load
  length-store_new k v [] e = omega arith
  length-store_new k v ((i, w) ∷ t) e = ground (arith, length-store_new k v t)

  pub length-store_old :
      (k : Bytes) (v w : V) (t : Table V) → load k t ≡ some w → length (store k v t) ≡ length t
  unfolding store load
  length-store_old k v w [] e = cc
  length-store_old k v w ((i, x) ∷ t) e = ground (arith, length-store_old k v w t)

  pub length-delete :
      (k : Bytes) (w : V) (t : Table V) → load k t ≡ some w → length (delete k t) + 1 ≡ length t
  unfolding delete load
  length-delete k w [] e = cc
  length-delete k w ((i, x) ∷ t) e = ground (arith, length-delete k w t)
