-- ===== src/Base/Map.antt =====
-- `HashMap` and `HashSet` as association lists. Only lookups are read, so the order never shows.
use mathlib.Core.Path.{◌≡◌, refl}
use mathlib.Core.Bool.{Bool, true, false}
use mathlib.Core.Option.{Option, none, some}
use mathlib.Core.List.{List, [], ◌∷◌}
use native.Mathlib.Omega.{arith}
use bingle_rust.Base.Tests.{if◌then◌else◌}
use bingle_rust.Base.Eq.{Eq, ◌=?◌}

abbrev pub Map {ℓ κ} : Type ℓ → Type κ → Type (ℓ ⊔ κ)
Map K V = List (K × V)

module _ {ℓ κ} {K : Type ℓ} {V : Type κ} ⦃e : Eq K⦄ where
  unfoldable pub get : Map K V → K → Option V
  get [] k = none
  get ((j, v) ∷ m) k = let rest = get m k in if j =? k then some v else rest

  unfoldable pub insert : K → V → Map K V → Map K V
  insert k v [] = (k, v) ∷ []
  insert k v ((j, w) ∷ m) = let rest = insert k v m in if j =? k then (k, v) ∷ m else (j, w) ∷ rest

  -- The entries whose key passes a test.
  unfoldable pub retain_keys : (K → Bool) → Map K V → Map K V
  retain_keys p [] = []
  retain_keys p ((j, v) ∷ m) = let rest = retain_keys p m in if p j then (j, v) ∷ rest else rest

  unfoldable pub remove : K → Map K V → Map K V
  remove k [] = []
  remove k ((j, v) ∷ m) = let rest = remove k m in if j =? k then rest else (j, v) ∷ rest

  -- The entries whose value passes a test. An entry stands for its key alone, so one that is dropped
  -- takes those it hides with it.
  unfoldable pub retain_values : (V → Bool) → Map K V → Map K V
  retain_values p [] = []
  retain_values p ((j, v) ∷ m) =
      let rest = retain_values p m in if p v then (j, v) ∷ rest else remove j rest

  unfoldable pub contains_key : Map K V → K → Bool
  contains_key m k = elim (get m k) [ none ↦ false | some _ ↦ true ]

  pub get-insert :
      (k j : K) (v : V) (m : Map K V) → get (insert k v m) j ≡ (if k =? j then some v else get m j)
  unfolding get insert
  get-insert k j v [] = refl
  get-insert k j v ((i, w) ∷ m) =
      ground (arith, e.beq_iff k j, e.beq_iff i k, e.beq_iff i j, get-insert k j v m)

  pub get-insert_self : (k : K) (v : V) (m : Map K V) → get (insert k v m) k ≡ some v
  get-insert_self k v m = ground (arith, get-insert k k v m, e.beq_iff k k)

  pub contains_key-insert :
      (k j : K) (v : V) (m : Map K V)
      → contains_key (insert k v m) j ≡ (if k =? j then true else contains_key m j)
  unfolding contains_key
  contains_key-insert k j v m = ground (arith, get-insert k j v m)

  pub contains_key-insert_self :
      (k : K) (v : V) (m : Map K V) → contains_key (insert k v m) k ≡ true
  unfolding contains_key
  contains_key-insert_self k v m = ground (arith, get-insert_self k v m)

  pub contains_key-get : (k : K) (v : V) (m : Map K V) → get m k ≡ some v → contains_key m k ≡ true
  unfolding contains_key
  contains_key-get k v m h = ground arith

  pub get-contains_key :
      (k : K) (m : Map K V) → contains_key m k ≡ true → (v : V) × (get m k ≡ some v)
  unfolding contains_key
  get-contains_key k m h = ground arith

  pub not-contains_key : (k : K) (m : Map K V) → contains_key m k ≡ false → get m k ≡ none
  unfolding contains_key
  not-contains_key k m h = ground arith

  pub get-remove : (k j : K) (m : Map K V) → get (remove k m) j ≡ (if k =? j then none else get m j)
  unfolding get remove
  get-remove k j [] = ground arith
  get-remove k j ((i, w) ∷ m) =
      ground (arith, e.beq_iff k j, e.beq_iff i k, e.beq_iff i j, get-remove k j m)

  pub get-retain_keys :
      (p : K → Bool) (j : K) (m : Map K V)
      → get (retain_keys p m) j ≡ (if p j then get m j else none)
  unfolding get retain_keys
  get-retain_keys p j [] = ground arith
  get-retain_keys p j ((i, w) ∷ m) = ground (arith, e.beq_iff i j, get-retain_keys p j m)

  pub get-retain_values :
      (p : V → Bool) (k : K) (m : Map K V)
      → get (retain_values p m) k
        ≡ elim (get m k) [ none ↦ none | some v ↦ if p v then some v else none ]
  unfolding get retain_values
  get-retain_values p k [] = refl
  get-retain_values p k ((i, w) ∷ m) =
      ground (arith, e.beq_iff i k, get-retain_values p k m, get-remove i k (retain_values p m))
