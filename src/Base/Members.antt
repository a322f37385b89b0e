-- ===== src/Base/Members.antt =====
-- What is in a list that is filtered or mapped, and what stays in order and unique there.
use mathlib.Core.Path.{◌≡◌, refl, sym, ap, ◌∙◌}
use mathlib.Core.Logic.{◌↔◌, inl, inr}
use mathlib.Core.Bool.{Bool, true}
use mathlib.Core.List.{List, [], ◌∷◌, map}
use native.Mathlib.Omega.{arith}
use bingle_rust.Base.Tests.{Bool-cases}
use bingle_rust.Base.Lists.{retain}
use bingle_rust.Base.Str.{Str}
use bingle_rust.Base.Order.{In, IsOrdered, IsUnique}

module _ {A : Type 0} where
  pub retain-In :
      (t : A → Bool) (q : A) (rs : List A) → In q (retain t rs) ↔ (In q rs × (t q ≡ true))
  unfolding retain
  retain-In t q [] = ((λ i. absurd i), (λ i. i.0))
  retain-In t q (r ∷ rs) = elim (Bool-cases (t r)) [
    | inl e ↦ rw e (
      (λ i. elim i [
        | inl same ↦ (inl same, ap t (sym same) ∙ e)
        | inr later ↦ let (there, passes) = (retain-In t q rs).0 later in (inr there, passes)
      ]),
      (λ i. elim i.0 [ inl same ↦ inl same | inr later ↦ inr ((retain-In t q rs).1 (later, i.1)) ]),
    )
    | inr e ↦ rw e (
      (λ i. let (there, passes) = (retain-In t q rs).0 i in (inr there, passes)),
      (λ i. elim i.0 [
        | inl same ↦ absurd (ground (arith, e, ap t same, i.1))
        | inr later ↦ (retain-In t q rs).1 (later, i.1)
      ]),
    )
  ]

  pub retain-IsUnique :
      (key : A → Str) (t : A → Bool) (rs : List A) → IsUnique key rs → IsUnique key (retain t rs)
  unfolding retain
  retain-IsUnique key t [] u = tt
  retain-IsUnique key t (r ∷ rs) u = elim (Bool-cases (t r)) [
    | inl e ↦ rw e ((λ q i. u.0 q ((retain-In t q rs).0 i).0), retain-IsUnique key t rs u.1)
    | inr e ↦ rw e (retain-IsUnique key t rs u.1)
  ]

  pub retain-IsOrdered :
      (key : A → Str) (t : A → Bool) (rs : List A) → IsOrdered key rs → IsOrdered key (retain t rs)
  unfolding retain
  retain-IsOrdered key t [] o = tt
  retain-IsOrdered key t (r ∷ rs) o = elim (Bool-cases (t r)) [
    | inl e ↦ rw e ((λ q i. o.0 q ((retain-In t q rs).0 i).0), retain-IsOrdered key t rs o.1)
    | inr e ↦ rw e (retain-IsOrdered key t rs o.1)
  ]

module _ {A B : Type 0} (f : A → B) where
  pub map-In : (b : B) (rs : List A) → In b (map f rs) ↔ ((a : A) × In a rs × (f a ≡ b))
  map-In b [] = ((λ i. absurd i), (λ i. i.1))
  map-In b (r ∷ rs) = (
    (λ i. elim i [
      | inl same ↦ (r, inl refl, same)
      | inr later ↦ let (a, there, e) = (map-In b rs).0 later in (a, inr there, e)
    ]),
    (λ i. elim i.1 [
      | inl same ↦ inl (ap f same ∙ i.2)
      | inr later ↦ inr ((map-In b rs).1 (i.0, later, i.2))
    ]),
  )

  pub map-IsUnique :
      (key : B → Str) (rs : List A) → IsUnique (λ (a : A). key (f a)) rs → IsUnique key (map f rs)
  map-IsUnique key [] u = tt
  map-IsUnique key (r ∷ rs) u = (
    (λ q i e. let (a, there, same) = (map-In q rs).0 i in u.0 a there (ap key same ∙ e)),
    map-IsUnique key rs u.1,
  )
