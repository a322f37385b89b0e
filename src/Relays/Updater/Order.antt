-- ===== src/Relays/Updater/Order.antt =====
-- The order of the candidates: `selection_order` (bingle_core/src/relay/relay_updater.rs).
use bingle_rust.Base.{
  ℕ, zero, suc, ◌+◌, ◌-◌, ◌/◌, ◌%◌, ◌^◌, ◌≤◌, ◌<◌, ◌≡◌, refl, ap, ◌∙◌, List, [], ◌∷◌, ◌++◌, ◌==◌,
  ==_iff, if◌then◌else◌, map, arith,
}
use native.Mathlib.Nat.{mod-lt, mod-eq_of_lt, mod-eq-sub-mod}
use bingle_rust.Relays.Updater.{range, select_indices, selection_order}

-- A range is the parts of it.
range_append : (start a b : ℕ) → range start (a + b) ≡ range start a ++ range (start + a) b
unfolding range
range_append start zero b =
    let c : zero + b ≡ b = omega arith in
    let x : start ≡ start + zero = omega arith in ap (λ n. range start n) c ∙ ap (λ n. range n b) x
range_append start (suc a) b =
    let c : suc a + b ≡ suc (a + b) = omega arith in
    let x : suc start + a ≡ start + suc a = omega arith in
    ap (λ n. range start n) c
    ∙ ap (λ l. start ∷ l)
        (range_append (suc start) a b ∙ ap (λ n. range (suc start) a ++ range n b) x)

map_append : (f : ℕ → ℕ) (xs ys : List ℕ) → map f (xs ++ ys) ≡ map f xs ++ map f ys
map_append f [] ys = refl
map_append f (x ∷ xs) ys = ap (λ l. f x ∷ l) (map_append f xs ys)

-- Before the wrap-around.
map_low : (n p a k : ℕ) → p + a + k ≤ n → map (λ o. (p + o) % n) (range a k) ≡ range (p + a) k
unfolding range
map_low n p a zero h = refl
map_low n p a (suc k) h =
    ap (λ x. x ∷ map (λ o. (p + o) % n) (range (suc a) k)) (mod-eq_of_lt (omega arith))
    ∙ ap (λ l. (p + a) ∷ l)
        (map_low n p (suc a) k (omega arith) ∙ ap (λ x. range x k) (omega arith))

-- After it.
map_high :
    (n p a k : ℕ)
    → n ≤ p + a
    → p + a + k ≤ n + n
    → map (λ o. (p + o) % n) (range a k) ≡ range (p + a - n) k
unfolding range
map_high n p a zero h l = refl
map_high n p a (suc k) h l =
    ap (λ x. x ∷ map (λ o. (p + o) % n) (range (suc a) k))
      (mod-eq-sub-mod h ∙ mod-eq_of_lt (omega arith))
    ∙ ap (λ l. (p + a - n) ∷ l)
        (map_high n p (suc a) k (omega arith) (omega arith) ∙ ap (λ x. range x k) (omega arith))

some_order : (n : ℕ) (order : List ℕ) → 0 < n → (if n == 0 then [] else order) ≡ order
some_order n order h = ground (arith, ==_iff n 0)

rotated :
    (n p : ℕ)
    → 0 < n
    → p < n
    → (if n == 0 then [] else map (λ o. (p + o) % n) (range 0 n)) ≡ range p (n - p) ++ range 0 p
rotated n p h l =
    some_order n _ h
    ∙ ap (λ c. map (λ o. (p + o) % n) (range 0 c)) (omega arith)
    ∙ ap (map (λ o. (p + o) % n)) (range_append 0 (n - p) p)
    ∙ map_append (λ o. (p + o) % n) (range 0 (n - p)) (range (0 + (n - p)) p)
    ∙ ap (λ l. l ++ map (λ o. (p + o) % n) (range (0 + (n - p)) p))
        (map_low n p 0 (n - p) (omega arith))
    ∙ ap (λ l. range (p + 0) (n - p) ++ l)
        (map_high n p (0 + (n - p)) p (omega arith) (omega arith))
    ∙ ap (λ x. range x (n - p) ++ range (p + (0 + (n - p)) - n) p) (omega arith)
    ∙ ap (λ x. range p (n - p) ++ range x p) (omega arith)

select_indices_lt : (n bucket : ℕ) → 0 < n → (select_indices n bucket).0 < n
unfolding select_indices
select_indices_lt n bucket h = ground (arith, mod-lt (bucket / (2 ^ 32 / n)) h)

-- Of at least one and at most 2^32 candidates the preferred one is one of them, and the order in
-- which they are probed is the candidates from it to the last, followed by those before it: each of
-- them once.
pub selection_order_lem :
    (n bucket : ℕ)
    → 0 < n
    → n ≤ 2 ^ 32
    → ((select_indices n bucket).0 < n)
      × (selection_order n bucket
          ≡ range (select_indices n bucket).0 (n - (select_indices n bucket).0)
            ++ range 0 (select_indices n bucket).0)
unfolding selection_order
selection_order_lem n bucket h m =
    let first = (select_indices n bucket).0 in
    let small = select_indices_lt n bucket h in (small, rotated n first h small)
