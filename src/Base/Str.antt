-- ===== src/Base/Str.antt =====
-- Rust strings: UTF-8 bytes, which `str` compares lexicographically.
use Prim.Native.Nat.{ℕ, compare, Ordering}
use mathlib.Core.Bool.{Bool, true, false}
use mathlib.Core.Path.{◌≡◌, refl}
use mathlib.Core.Logic.{◌↔◌}
use mathlib.Core.List.{List, [], ◌∷◌}
use native.Mathlib.Omega.{arith}
use bingle_rust.Base.Tests.{◌==◌, if◌then◌else◌}
use bingle_rust.Base.Eq.{Eq}

abbrev pub Str : Type 0
Str = List ℕ

unfoldable pub cmp : Str → Str → Ordering
cmp [] [] = Ordering.eq
cmp [] (y ∷ ys) = Ordering.lt
cmp (x ∷ xs) [] = Ordering.gt
cmp (x ∷ xs) (y ∷ ys) =
    let rest = cmp xs ys in
    elim (compare x y) [
      | Ordering.lt ↦ Ordering.lt
      | Ordering.eq ↦ rest
      | Ordering.gt ↦ Ordering.gt
    ]

unfoldable pub str_beq : Str → Str → Bool
str_beq [] [] = true
str_beq [] (y ∷ ys) = false
str_beq (x ∷ xs) [] = false
str_beq (x ∷ xs) (y ∷ ys) = let rest = str_beq xs ys in if x == y then rest else false

pub str_beq_iff : (s t : Str) → (str_beq s t ≡ true) ↔ (s ≡ t)
unfolding str_beq
str_beq_iff [] [] = (λ h. refl, λ h. refl)
str_beq_iff [] (y ∷ ys) = (λ h. cc, λ h. cc)
str_beq_iff (x ∷ xs) [] = (λ h. cc, λ h. cc)
str_beq_iff (x ∷ xs) (y ∷ ys) = ground (arith, str_beq_iff xs ys)

instance abbrev pub str_eq : Eq Str
str_eq = record { beq = str_beq; beq_iff = str_beq_iff }

pub cmp-eq_iff : (s t : Str) → (cmp s t ≡ Ordering.eq) ↔ (s ≡ t)
unfolding cmp
cmp-eq_iff [] [] = (λ h. refl, λ h. refl)
cmp-eq_iff [] (y ∷ ys) = (λ h. cc, λ h. cc)
cmp-eq_iff (x ∷ xs) [] = (λ h. cc, λ h. cc)
cmp-eq_iff (x ∷ xs) (y ∷ ys) = ground (arith, cmp-eq_iff xs ys)

-- The order turned round.
abbrev pub swap : Ordering → Ordering
swap Ordering.lt = Ordering.gt
swap Ordering.eq = Ordering.eq
swap Ordering.gt = Ordering.lt

pub cmp-swap : (s t : Str) → cmp t s ≡ swap (cmp s t)
unfolding cmp
cmp-swap [] [] = refl
cmp-swap [] (y ∷ ys) = refl
cmp-swap (x ∷ xs) [] = refl
cmp-swap (x ∷ xs) (y ∷ ys) = ground (arith, cmp-swap xs ys)

pub cmp-lt_trans :
    (s t u : Str) → cmp s t ≡ Ordering.lt → cmp t u ≡ Ordering.lt → cmp s u ≡ Ordering.lt
unfolding cmp
cmp-lt_trans [] t [] h k = ground (arith, cmp-swap [] t)
cmp-lt_trans [] t (z ∷ zs) h k = refl
cmp-lt_trans (x ∷ xs) [] u h k = cc
cmp-lt_trans (x ∷ xs) (y ∷ ys) [] h k = cc
cmp-lt_trans (x ∷ xs) (y ∷ ys) (z ∷ zs) h k = ground (arith, cmp-lt_trans xs ys zs)
