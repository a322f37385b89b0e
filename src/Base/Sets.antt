-- ===== src/Base/Sets.antt =====
-- `HashSet` as a list of distinct elements. Only membership and the size are read.
use Prim.Native.Nat.{suc, ◌≤◌}
use mathlib.Core.Path.{◌≡◌, refl}
use mathlib.Core.Bool.{Bool, true, false}
use mathlib.Core.List.{List, [], ◌∷◌}
use native.Mathlib.Omega.{arith}
use bingle_rust.Base.Tests.{if◌then◌else◌}
use bingle_rust.Base.Lists.{length}
use bingle_rust.Base.Eq.{Eq, ◌=?◌}

module _ {ℓ} {A : Type ℓ} ⦃e : Eq A⦄ where
  unfoldable pub contains : List A → A → Bool
  contains [] a = false
  contains (x ∷ xs) a = let rest = contains xs a in if x =? a then true else rest

  -- `HashSet::insert`.
  unfoldable pub add : A → List A → List A
  add a xs = if contains xs a then xs else a ∷ xs

  -- `HashSet::remove`.
  unfoldable pub discard : A → List A → List A
  discard a [] = []
  discard a (x ∷ xs) = let rest = discard a xs in if x =? a then rest else x ∷ rest

  -- No element stands twice.
  unfoldable pub distinct : List A → Bool
  distinct [] = true
  distinct (x ∷ xs) = let rest = distinct xs in if contains xs x then false else rest

  pub contains-add :
      (a b : A) (xs : List A) → contains (add a xs) b ≡ (if a =? b then true else contains xs b)
  unfolding contains add
  contains-add a b xs = ground (arith, e.beq_iff a b)

  pub distinct-add : (a : A) (xs : List A) → distinct xs ≡ true → distinct (add a xs) ≡ true
  unfolding distinct add
  distinct-add a xs h = ground arith

  pub contains-discard :
      (a b : A) (xs : List A)
      → contains (discard a xs) b ≡ (if a =? b then false else contains xs b)
  unfolding contains discard
  contains-discard a b [] = ground arith
  contains-discard a b (x ∷ xs) =
      ground (arith, e.beq_iff a b, e.beq_iff x a, e.beq_iff x b, contains-discard a b xs)

  pub distinct-discard : (a : A) (xs : List A) → distinct xs ≡ true → distinct (discard a xs) ≡ true
  unfolding distinct discard
  distinct-discard a [] h = refl
  distinct-discard a (x ∷ xs) h = ground (arith, distinct-discard a xs, contains-discard a x xs)

  discard_absent : (a : A) (xs : List A) → contains xs a ≡ false → discard a xs ≡ xs
  unfolding contains discard
  discard_absent a [] h = refl
  discard_absent a (x ∷ xs) h = ground (arith, discard_absent a xs)

  -- A set loses one element where the element is in it.
  length-discard :
      (a : A) (xs : List A)
      → distinct xs ≡ true
      → contains xs a ≡ true
      → suc (length (discard a xs)) ≡ length xs
  unfolding distinct discard contains
  length-discard a [] h k = cc
  length-discard a (x ∷ xs) h k =
      ground (arith, length-discard a xs, e.beq_iff x a, discard_absent a xs)

  -- A set that lies within another and is no smaller holds all of it.
  pub contains_all :
      (xs ys : List A)
      → distinct xs ≡ true
      → distinct ys ≡ true
      → ((a : A) → contains xs a ≡ true → contains ys a ≡ true)
      → length ys ≤ length xs
      → (a : A) → contains ys a ≡ true
      → contains xs a ≡ true
  unfolding contains distinct
  contains_all [] [] d d' within long a h = cc
  contains_all [] (y ∷ ys) d d' within long a h = absurd (omega arith)
  contains_all (x ∷ xs) ys d d' within long a h =
      let first : contains ys x ≡ true = ground (arith, within x, e.beq_iff x x) in
      let rest =
        contains_all xs (discard x ys) (ground arith) (distinct-discard x ys d')
          (λ b k. ground (arith, within b, contains-discard x b ys, e.beq_iff x b))
          (omega (arith, length-discard x ys d' first)) a in
      ground (arith, rest, contains-discard x a ys, e.beq_iff x a)
