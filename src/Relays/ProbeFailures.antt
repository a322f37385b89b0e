-- ===== src/Relays/ProbeFailures.antt =====
-- bingle_core/src/relay/relay_probe_failures.rs: the relays that failed a probe of late.
use bingle_rust.Base.{
  ℕ, ◌-◌, ◌≤◌, ◌≡◌, ◌⊎◌, inl, inr, refl, sym, subst, ◌∙◌, Bool, true, false, Option, none, some,
  List, [], ◌∷◌, ltb, if◌then◌else◌, arith, Bool-cases,
}
use bingle_rust.Base.Eq.{◌=?◌}
use bingle_rust.Base.Map.{Map, get, insert, remove, get-insert, get-remove}
use bingle_rust.Base.Lock
use bingle_rust.Base.Lock.{Mutex, lock, write}
use bingle_rust.Base.Str.{Str, str_eq, str_beq_iff}

pub record RelayProbeFailures : Type 0 where
  pub cooldown : ℕ
  pub failed_at : Mutex (Map Str ℕ)

abbrev pub new : ℕ → RelayProbeFailures
new cooldown = record { cooldown = cooldown; failed_at = Lock.new [] }

-- `now` is the reading of the clock.
unfoldable pub record_failure : Str → ℕ → RelayProbeFailures → RelayProbeFailures
record_failure relay_id now c = elim (lock c.failed_at) [
  | none ↦ c
  | some m ↦ record c { failed_at = write c.failed_at (insert relay_id now m) }
]

unfoldable pub record_success : Str → RelayProbeFailures → RelayProbeFailures
record_success relay_id c = elim (lock c.failed_at) [
  | none ↦ c
  | some m ↦ record c { failed_at = write c.failed_at (remove relay_id m) }
]

unfoldable pub is_cooling_down : Str → ℕ → RelayProbeFailures → RelayProbeFailures × Bool
is_cooling_down relay_id now c = elim (lock c.failed_at) [
  | none ↦ (c, false)
  | some m ↦ elim (get m relay_id) [
    | none ↦ (c, false)
    | some failed ↦
        if ltb (now - failed) c.cooldown
        then (c, true)
        else (record c { failed_at = write c.failed_at (remove relay_id m) }, false)
  ]
]

-- A use of the cache, with the reading of the clock.
pub data Use : Type 0 where
  fails : Str → ℕ → Use
  answers : Str → Use
  asks : Str → ℕ → Use

unfoldable pub use_cache : Use → RelayProbeFailures → RelayProbeFailures
use_cache (fails id now) c = record_failure id now c
use_cache (answers id) c = record_success id c
use_cache (asks id now) c = (is_cooling_down id now c).0

-- The uses, the latest first.
unfoldable pub use_all : List Use → RelayProbeFailures → RelayProbeFailures
use_all [] c = c
use_all (u ∷ us) c = use_cache u (use_all us c)

-- What is asked: the time of the latest failure of a relay since it last answered.
unfoldable pub latest_failure : Str → List Use → Option ℕ
latest_failure id [] = none
latest_failure id (fails jd now ∷ us) =
    let rest = latest_failure id us in if jd =? id then some now else rest
latest_failure id (answers jd ∷ us) =
    let rest = latest_failure id us in if jd =? id then none else rest
latest_failure id (asks jd now ∷ us) = latest_failure id us

-- The clock does not go back: no use is later than the time.
abbrev pub InOrder : ℕ → List Use → Type 0
InOrder now [] = Unit {0}
InOrder now (fails id t ∷ us) = (t ≤ now) × InOrder t us
InOrder now (answers id ∷ us) = InOrder now us
InOrder now (asks id t ∷ us) = (t ≤ now) × InOrder t us

-- The cache holds the latest failure, or has dropped it when it was too old.
abbrev Holds : RelayProbeFailures → Str → ℕ → Option ℕ → Type 0
Holds c id now none = get c.failed_at.inner id ≡ none
Holds c id now (some t) =
    (get c.failed_at.inner id ≡ some t)
    ⊎ ((get c.failed_at.inner id ≡ none) × (c.cooldown ≤ now - t))

holds_later :
    (c : RelayProbeFailures) (id : Str) (t now : ℕ) (f : Option ℕ)
    → t ≤ now
    → Holds c id t f
    → Holds c id now f
holds_later c id t now none h k = k
holds_later c id t now (some f) h (inl k) = inl k
holds_later c id t now (some f) h (inr k) = inr (k.0, omega (arith, k.1))

-- Only what the cache holds of the relay counts.
holds_as :
    (c d : RelayProbeFailures) (id : Str) (now : ℕ) (f : Option ℕ)
    → get d.failed_at.inner id ≡ get c.failed_at.inner id
    → d.cooldown ≡ c.cooldown
    → Holds c id now f
    → Holds d id now f
holds_as c d id now none e h k = e ∙ k
holds_as c d id now (some f) e h (inl k) = inl (e ∙ k)
holds_as c d id now (some f) e h (inr k) = inr (e ∙ k.0, rw h k.1)

asked_same :
    (id : Str) (t : ℕ) (c : RelayProbeFailures)
    → c.failed_at.poisoned ≡ false
    → ((is_cooling_down id t c).0.failed_at.poisoned ≡ false)
      × ((is_cooling_down id t c).0.cooldown ≡ c.cooldown)
unfolding is_cooling_down
asked_same id t c sound = ground arith

asked_other :
    (jd id : Str) (t : ℕ) (c : RelayProbeFailures)
    → c.failed_at.poisoned ≡ false
    → (jd =? id) ≡ false
    → get (is_cooling_down jd t c).0.failed_at.inner id ≡ get c.failed_at.inner id
unfolding is_cooling_down
asked_other jd id t c sound differs = ground (arith, get-remove jd id c.failed_at.inner)

-- A failure that is dropped is too old.
asked_holds :
    (c : RelayProbeFailures) (id : Str) (t : ℕ) (f : Option ℕ)
    → c.failed_at.poisoned ≡ false
    → Holds c id t f
    → Holds (is_cooling_down id t c).0 id t f
unfolding is_cooling_down
asked_holds c id t none sound h = ground (arith, h)
asked_holds c id t (some f) sound (inl k) = elim (Bool-cases (ltb (t - f) c.cooldown)) [
  | inl fresh ↦ inl (ground (arith, k))
  | inr old ↦
      inr (
        ground (arith, k, get-remove id id c.failed_at.inner, str_beq_iff id id),
        ground (arith, k),
      )
]
asked_holds c id t (some f) sound (inr k) = inr (ground (arith, k.0), ground (arith, k.0, k.1))

answer :
    (c : RelayProbeFailures) (id : Str) (now : ℕ) (f : Option ℕ)
    → c.failed_at.poisoned ≡ false
    → Holds c id now f
    → (is_cooling_down id now c).1 ≡ elim f [ none ↦ false | some t ↦ ltb (now - t) c.cooldown ]
unfolding is_cooling_down
answer c id now none sound h = ground (arith, h)
answer c id now (some f) sound (inl k) = ground (arith, k)
answer c id now (some f) sound (inr k) = ground (arith, k.0, k.1)

record Tracks (cooldown now : ℕ) (us : List Use) (c : RelayProbeFailures) : Type 0 where
  sound : c.failed_at.poisoned ≡ false
  same : c.cooldown ≡ cooldown
  holds : (id : Str) → Holds c id now (latest_failure id us)

use_all-Tracks :
    (cooldown : ℕ) (us : List Use) (now : ℕ)
    → InOrder now us
    → Tracks cooldown now us (use_all us (new cooldown))
unfolding use_all use_cache record_failure record_success latest_failure get
use_all-Tracks cooldown [] now o = record { sound = refl; same = refl; holds = λ id. refl }
use_all-Tracks cooldown (fails jd t ∷ us) now o =
    let r = use_all-Tracks cooldown us t o.1 in
    let c = use_all us (new cooldown) in
    record {
      sound = ground (arith, r.sound);
      same = ground (arith, r.sound, r.same);
      holds = λ id. elim (Bool-cases (jd =? id)) [
        | inl same ↦ rw same (inl (ground (arith, r.sound, get-insert jd id t c.failed_at.inner)))
        | inr differs ↦ rw differs (
            holds_as c (record_failure jd t c) id now (latest_failure id us)
              (ground (arith, r.sound, get-insert jd id t c.failed_at.inner))
              (ground (arith, r.sound))
              (holds_later c id t now (latest_failure id us) o.0 (r.holds id)))
      ];
    }
use_all-Tracks cooldown (answers jd ∷ us) now o =
    let r = use_all-Tracks cooldown us now o in
    let c = use_all us (new cooldown) in
    record {
      sound = ground (arith, r.sound);
      same = ground (arith, r.sound, r.same);
      holds = λ id. elim (Bool-cases (jd =? id)) [
        | inl same ↦ rw same (ground (arith, r.sound, get-remove jd id c.failed_at.inner))
        | inr differs ↦ rw differs (
            holds_as c (record_success jd c) id now (latest_failure id us)
              (ground (arith, r.sound, get-remove jd id c.failed_at.inner))
              (ground (arith, r.sound)) (r.holds id))
      ];
    }
use_all-Tracks cooldown (asks jd t ∷ us) now o =
    let r = use_all-Tracks cooldown us t o.1 in
    let c = use_all us (new cooldown) in
    record {
      sound = (asked_same jd t c r.sound).0;
      same = (asked_same jd t c r.sound).1 ∙ r.same;
      holds = λ id.
          holds_later (is_cooling_down jd t c).0 id t now (latest_failure id us) o.0
            (elim (Bool-cases (jd =? id)) [
              | inl same ↦
                  subst (λ (x : Str). Holds (is_cooling_down x t c).0 id t (latest_failure id us))
                    (sym ((str_beq_iff jd id).0 same))
                    (asked_holds c id t (latest_failure id us) r.sound (r.holds id))
              | inr differs ↦
                  holds_as c (is_cooling_down jd t c).0 id t (latest_failure id us)
                    (asked_other jd id t c r.sound differs) (asked_same jd t c r.sound).1
                    (r.holds id)
            ]);
    }

-- Where the clock does not go back, after any uses of a new cache a relay is reported as cooling
-- down exactly when its latest failure since it last answered is less than the cool-down ago,
-- whatever entries were dropped in between.
pub is_cooling_down_lem :
    (cooldown : ℕ) (us : List Use) (id : Str) (now : ℕ)
    → InOrder now us
    → (is_cooling_down id now (use_all us (new cooldown))).1
      ≡ elim (latest_failure id us) [ none ↦ false | some t ↦ ltb (now - t) cooldown ]
is_cooling_down_lem cooldown us id now o =
    let r = use_all-Tracks cooldown us now o in
    subst
      (λ (n : ℕ).
        (is_cooling_down id now (use_all us (new cooldown))).1
        ≡ elim (latest_failure id us) [ none ↦ false | some t ↦ ltb (now - t) n ])
      r.same (answer (use_all us (new cooldown)) id now (latest_failure id us) r.sound (r.holds id))
