-- ===== src/Relays/KeepAlive.antt =====
-- `next_wait` of bingle_core/src/relay/relay_keep_alive.rs: how long the keep-alive waits after a
-- number of failures in a row. Durations are in nanoseconds.
use bingle_rust.Base.{
  ℕ, suc, ◌⊎◌, inl, inr, refl, ap, ◌∙◌, Bool-cases, ◌+◌, ◌-◌, ◌*◌, ◌^◌, ◌≤◌, ◌<◌, ◌≡◌, min, ltb,
  ◌==◌, if◌then◌else◌, arith,
}
use native.Mathlib.Omega.{pow_step}

-- The first number that is no `Duration`.
abbrev pub duration_limit : ℕ
duration_limit = 2 ^ 64 * 10 ^ 9

unfoldable pub next_wait : ℕ → ℕ → ℕ → ℕ
next_wait interval base consecutive_failures =
    if consecutive_failures == 0
    then interval
    else let shift = min (consecutive_failures - 1) 16 in
      let product = base * 2 ^ shift in
      min (if ltb product duration_limit then product else interval) interval

twice : (base p : ℕ) → base * (2 * p) ≡ 2 * (base * p)
twice base p = grind arith

-- Each failure more doubles the product, or leaves it from the seventeenth on.
doubled :
    (base failures : ℕ)
    → let product = base * 2 ^ min failures 16 in
      let next = base * 2 ^ min (failures + 1) 16 in (next ≡ 2 * product) ⊎ (next ≡ product)
doubled base failures = elim (Bool-cases (ltb failures 16)) [
  | inl e ↦
      let one : min (failures + 1) 16 ≡ suc (min failures 16) = ground arith in
      inl (
        ap (λ (m : ℕ). base * 2 ^ m) one
        ∙ ap (λ (m : ℕ). base * m) (pow_step 2 (min failures 16))
        ∙ twice base (2 ^ min failures 16))
  | inr e ↦
      let same : min (failures + 1) 16 ≡ min failures 16 = ground arith in
      inr (ap (λ (m : ℕ). base * 2 ^ m) same)
]

next_wait-min :
    (interval base failures : ℕ)
    → interval < duration_limit
    → next_wait interval base (failures + 1) ≡ min (base * 2 ^ min failures 16) interval
unfolding next_wait
next_wait-min interval base failures h =
    let less : failures + 1 - 1 ≡ failures = omega arith in ground (arith, less)

-- For an interval that is a duration: the wait is the interval without a failure, the base capped
-- at the interval after one, and after more failures it never exceeds the interval, never shrinks
-- from one failure to the next, and at most doubles.
next_wait_lem :
    (interval base failures : ℕ)
    → interval < duration_limit
    → (next_wait interval base 0 ≡ interval)
      × (next_wait interval base 1 ≡ min base interval)
      × (next_wait interval base (failures + 1) ≤ interval)
      × (next_wait interval base (failures + 1) ≤ next_wait interval base (failures + 2))
      × (next_wait interval base (failures + 2) ≤ 2 * next_wait interval base (failures + 1))
unfolding next_wait
next_wait_lem interval base failures h =
    let more : failures + 2 ≡ failures + 1 + 1 = omega arith in
    let first = next_wait-min interval base failures h in
    let second = next_wait-min interval base (failures + 1) h in
    elim (doubled base failures) [
      | inl e ↦ (
        refl,
        ground arith,
        ground (arith, first),
        ground (arith, first, second, e),
        ground (arith, first, second, e),
      )
      | inr e ↦ (
        refl,
        ground arith,
        ground (arith, first),
        ground (arith, first, second, e),
        ground (arith, first, second, e),
      )
    ]
