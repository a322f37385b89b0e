-- ===== src/Base/Order.antt =====
-- Lists sorted by a text that each element has (`sort_by` on the ids): the elements stay, they are in
-- order, and no id stands twice that did not before.
use mathlib.Core.Path.{◌≡◌, refl, sym, subst}
use mathlib.Core.Logic.{◌≢◌, ◌⊎◌, inl, inr}
use mathlib.Core.List.{List, [], ◌∷◌}
use Prim.Native.Nat.{Ordering}
use native.Mathlib.Omega.{arith}
use bingle_rust.Base.Str.{Str, str_eq, cmp, cmp-swap, cmp-eq_iff, cmp-lt_trans}

-- The element is one of the list.
abbrev pub In : {A : Type 0} → A → List A → Type 0
In r [] = ⊥
In r (q ∷ qs) = (q ≡ r) ⊎ In r qs

module _ {A : Type 0} (key : A → Str) where
  unfoldable pub insert_by : A → List A → List A
  insert_by r [] = r ∷ []
  insert_by r (q ∷ qs) =
      let rest = insert_by r qs in
      elim (cmp (key r) (key q)) [
        | Ordering.lt ↦ r ∷ q ∷ qs
        | Ordering.eq ↦ r ∷ q ∷ qs
        | Ordering.gt ↦ q ∷ rest
      ]

  -- `sort_by` on the ids, which keeps the order of equal ones.
  unfoldable pub sort_by : List A → List A
  sort_by [] = []
  sort_by (r ∷ rs) = insert_by r (sort_by rs)

  -- One element does not come after another by its id.
  abbrev pub NotAfter : A → A → Type 0
  NotAfter p q = cmp (key p) (key q) ≢ Ordering.gt

  abbrev pub IsOrdered : List A → Type 0
  IsOrdered [] = Unit {0}
  IsOrdered (r ∷ rs) = ((q : A) → In q rs → NotAfter r q) × IsOrdered rs

  NotAfter-trans : (p q r : A) → NotAfter p q → NotAfter q r → NotAfter p r
  NotAfter-trans p q r h k = ground (
    arith,
    h,
    k,
    cmp-lt_trans (key p) (key q) (key r),
    cmp-eq_iff (key p) (key q),
    cmp-eq_iff (key q) (key r),
  )

  pub insert_by-In :
      (r q : A) (rs : List A)
      → (In q (insert_by r rs) → In q (r ∷ rs)) × (In q (r ∷ rs) → In q (insert_by r rs))
  unfolding insert_by
  insert_by-In r q [] = ((λ i. i), (λ i. i))
  insert_by-In r q (x ∷ xs) = ground (arith, insert_by-In r q xs)

  -- The element before an ordered list, where its first element does not come before it.
  IsOrdered-cons :
      (r x : A) (xs : List A) → NotAfter r x → IsOrdered (x ∷ xs) → IsOrdered (r ∷ x ∷ xs)
  IsOrdered-cons r x xs e h = (
    (λ q i. elim i [
      | inl same ↦ subst (NotAfter r) same e
      | inr later ↦ NotAfter-trans r x q e (h.0 q later)
    ]),
    h,
  )

  insert_by-place :
      (r x : A) (xs : List A) (o : Ordering)
      → cmp (key r) (key x) ≡ o
      → IsOrdered (x ∷ xs)
      → IsOrdered (insert_by r xs)
      → IsOrdered (elim o [
        | Ordering.lt ↦ r ∷ x ∷ xs
        | Ordering.eq ↦ r ∷ x ∷ xs
        | Ordering.gt ↦ x ∷ insert_by r xs
      ])
  insert_by-place r x xs Ordering.lt e h rest = IsOrdered-cons r x xs (λ g. cc) h
  insert_by-place r x xs Ordering.eq e h rest = IsOrdered-cons r x xs (λ g. cc) h
  insert_by-place r x xs Ordering.gt e h rest = (
    (λ q i. elim ((insert_by-In r q xs).0 i) [
      | inl same ↦ subst (NotAfter x) same (λ g. ground (arith, cmp-swap (key r) (key x)))
      | inr later ↦ h.0 q later
    ]),
    rest,
  )

  insert_by-IsOrdered : (r : A) (rs : List A) → IsOrdered rs → IsOrdered (insert_by r rs)
  unfolding insert_by
  insert_by-IsOrdered r [] h = ((λ q i. absurd i), tt)
  insert_by-IsOrdered r (x ∷ xs) h =
      insert_by-place r x xs (cmp (key r) (key x)) refl h (insert_by-IsOrdered r xs h.1)

  pub sort_by-In :
      (q : A) (rs : List A) → (In q (sort_by rs) → In q rs) × (In q rs → In q (sort_by rs))
  unfolding sort_by
  sort_by-In q [] = ((λ i. i), (λ i. i))
  sort_by-In q (r ∷ rs) =
      let put = insert_by-In r q (sort_by rs) in
      let rest = sort_by-In q rs in
      (
        (λ i. elim (put.0 i) [ inl same ↦ inl same | inr later ↦ inr (rest.0 later) ]),
        (λ i. put.1 (elim i [ inl same ↦ inl same | inr later ↦ inr (rest.1 later) ])),
      )

  pub sort_by-IsOrdered : (rs : List A) → IsOrdered (sort_by rs)
  unfolding sort_by
  sort_by-IsOrdered [] = tt
  sort_by-IsOrdered (r ∷ rs) = insert_by-IsOrdered r (sort_by rs) (sort_by-IsOrdered rs)

  -- No element of the list has the id.
  abbrev pub IsAbsent : Str → List A → Type 0
  IsAbsent id rs = (q : A) → In q rs → key q ≢ id

  abbrev pub IsUnique : List A → Type 0
  IsUnique [] = Unit {0}
  IsUnique (r ∷ rs) = IsAbsent (key r) rs × IsUnique rs

  IsUnique-place :
      (r x : A) (xs : List A) (o : Ordering)
      → IsAbsent (key r) (x ∷ xs)
      → IsUnique (x ∷ xs)
      → IsUnique (insert_by r xs)
      → IsUnique (elim o [
        | Ordering.lt ↦ r ∷ x ∷ xs
        | Ordering.eq ↦ r ∷ x ∷ xs
        | Ordering.gt ↦ x ∷ insert_by r xs
      ])
  IsUnique-place r x xs Ordering.lt a u rest = (a, u)
  IsUnique-place r x xs Ordering.eq a u rest = (a, u)
  IsUnique-place r x xs Ordering.gt a u rest = (
    (λ q i. elim ((insert_by-In r q xs).0 i) [
      | inl same ↦ subst (λ (p : A). key p ≢ key x) same (λ e. a x (inl refl) (sym e))
      | inr later ↦ u.0 q later
    ]),
    rest,
  )

  insert_by-IsUnique :
      (r : A) (rs : List A) → IsAbsent (key r) rs → IsUnique rs → IsUnique (insert_by r rs)
  unfolding insert_by
  insert_by-IsUnique r [] a u = (a, tt)
  insert_by-IsUnique r (x ∷ xs) a u =
      IsUnique-place r x xs (cmp (key r) (key x)) a u
        (insert_by-IsUnique r xs (λ q i. a q (inr i)) u.1)

  pub sort_by-IsUnique : (rs : List A) → IsUnique rs → IsUnique (sort_by rs)
  unfolding sort_by
  sort_by-IsUnique [] u = tt
  sort_by-IsUnique (r ∷ rs) u =
      insert_by-IsUnique r (sort_by rs) (λ q i. u.0 q ((sort_by-In q rs).0 i))
        (sort_by-IsUnique rs u.1)
