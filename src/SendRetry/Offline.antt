-- ===== src/SendRetry/Offline.antt =====
-- What `is_offline` answers after any failures and successes.
use bingle_rust.Base.{
  ℕ, ◌+◌, ◌≤◌, ◌≡◌, ◌⊎◌, inl, inr, refl, subst, true, false, Option, none, some, List, [], ◌∷◌, ltb,
  if◌then◌else◌, arith, Bool-cases,
}
use bingle_rust.Base.Eq.{◌=?◌}
use bingle_rust.Base.Map.{get, retain_values, get-insert, get-remove, get-retain_values}
use bingle_rust.Base.Str.{Str, str_eq}
use bingle_rust.SendRetry.{OfflineWindow, new, mark_offline, is_offline, clear}

-- A recipient is found offline, or answers.
pub data Sending : Type 0 where
  fails : Str → ℕ → Sending
  answers : Str → Sending

-- The sendings, the latest first.
unfoldable pub after_all : List Sending → OfflineWindow → OfflineWindow
after_all [] w = w
after_all (fails id now ∷ es) w = mark_offline id now (after_all es w)
after_all (answers id ∷ es) w = clear id (after_all es w)

-- The time of a recipient's latest failure since it last answered.
unfoldable pub latest_failure : Str → List Sending → Option ℕ
latest_failure id [] = none
latest_failure id (fails jd now ∷ es) =
    let rest = latest_failure id es in if jd =? id then some now else rest
latest_failure id (answers jd ∷ es) =
    let rest = latest_failure id es in if jd =? id then none else rest

-- The clock does not go back: no sending is later than the time.
abbrev pub InOrder : ℕ → List Sending → Type 0
InOrder now [] = Unit {0}
InOrder now (fails id t ∷ es) = (t ≤ now) × InOrder t es
InOrder now (answers id ∷ es) = InOrder now es

-- The window holds the deadline of the latest failure, or has dropped it when it had passed.
abbrev Holds : OfflineWindow → Str → ℕ → Option ℕ → Type 0
Holds w id now none = get w.until id ≡ none
Holds w id now (some t) =
    (get w.until id ≡ some (t + w.window)) ⊎ ((get w.until id ≡ none) × (t + w.window ≤ now))

-- Dropping what has passed, for a time that is no earlier.
mark_offline-Holds :
    (w : OfflineWindow) (jd id : Str) (t now : ℕ) (f : Option ℕ)
    → (jd =? id) ≡ false
    → t ≤ now
    → Holds w id t f
    → Holds (mark_offline jd t w) id now f
unfolding mark_offline
mark_offline-Holds w jd id t now none differs o h = ground (
  arith,
  h,
  get-insert jd id (t + w.window) (retain_values (ltb t) w.until),
  get-retain_values (ltb t) id w.until,
)
mark_offline-Holds w jd id t now (some f) differs o (inl h) =
    elim (Bool-cases (ltb t (f + w.window))) [
      | inl fresh ↦ inl (
          ground (
            arith,
            h,
            get-insert jd id (t + w.window) (retain_values (ltb t) w.until),
            get-retain_values (ltb t) id w.until,
          ))
      | inr old ↦ inr (
        ground (
          arith,
          h,
          get-insert jd id (t + w.window) (retain_values (ltb t) w.until),
          get-retain_values (ltb t) id w.until,
        ),
        ground arith,
      )
    ]
mark_offline-Holds w jd id t now (some f) differs o (inr h) = inr (
  ground (
    arith,
    h.0,
    get-insert jd id (t + w.window) (retain_values (ltb t) w.until),
    get-retain_values (ltb t) id w.until,
  ),
  omega (arith, h.1),
)

clear-Holds :
    (w : OfflineWindow) (jd id : Str) (now : ℕ) (f : Option ℕ)
    → (jd =? id) ≡ false
    → Holds w id now f
    → Holds (clear jd w) id now f
unfolding clear
clear-Holds w jd id now none differs h = ground (arith, h, get-remove jd id w.until)
clear-Holds w jd id now (some f) differs (inl h) = inl (ground (arith, h, get-remove jd id w.until))
clear-Holds w jd id now (some f) differs (inr h) =
    inr (ground (arith, h.0, get-remove jd id w.until), h.1)

mark_offline-get :
    (jd id : Str) (t : ℕ) (w : OfflineWindow)
    → (jd =? id) ≡ true
    → get (mark_offline jd t w).until id ≡ some (t + (mark_offline jd t w).window)
unfolding mark_offline
mark_offline-get jd id t w same =
    ground (arith, get-insert jd id (t + w.window) (retain_values (ltb t) w.until))

clear-get : (jd id : Str) (w : OfflineWindow) → (jd =? id) ≡ true → get (clear jd w).until id ≡ none
unfolding clear
clear-get jd id w same = ground (arith, get-remove jd id w.until)

after_all-window : (es : List Sending) (window : ℕ) → (after_all es (new window)).window ≡ window
unfolding after_all mark_offline clear
after_all-window [] window = refl
after_all-window (fails id t ∷ es) window = after_all-window es window
after_all-window (answers id ∷ es) window = after_all-window es window

after_all-Holds :
    (es : List Sending) (window : ℕ) (id : Str) (now : ℕ)
    → InOrder now es
    → Holds (after_all es (new window)) id now (latest_failure id es)
unfolding after_all latest_failure get
after_all-Holds [] window id now o = refl
after_all-Holds (fails jd t ∷ es) window id now o = elim (Bool-cases (jd =? id)) [
  | inl same ↦ rw same (inl (mark_offline-get jd id t (after_all es (new window)) same))
  | inr differs ↦ rw differs (
      mark_offline-Holds (after_all es (new window)) jd id t now (latest_failure id es) differs o.0
        (after_all-Holds es window id t o.1))
]
after_all-Holds (answers jd ∷ es) window id now o = elim (Bool-cases (jd =? id)) [
  | inl same ↦ rw same (clear-get jd id (after_all es (new window)) same)
  | inr differs ↦ rw differs (
      clear-Holds (after_all es (new window)) jd id now (latest_failure id es) differs
        (after_all-Holds es window id now o))
]

answer :
    (w : OfflineWindow) (id : Str) (now : ℕ) (f : Option ℕ)
    → Holds w id now f
    → is_offline id now w ≡ elim f [ none ↦ false | some t ↦ ltb now (t + w.window) ]
unfolding is_offline
answer w id now none h = ground (arith, h)
answer w id now (some f) (inl h) = ground (arith, h)
answer w id now (some f) (inr h) = ground (arith, h.0, h.1)

-- Where the clock does not go back, after any failures and answers with a new window a recipient is
-- offline exactly while the window since its latest failure after it last answered has not passed,
-- whatever deadlines were dropped in between.
pub is_offline_lem :
    (window : ℕ) (es : List Sending) (id : Str) (now : ℕ)
    → InOrder now es
    → is_offline id now (after_all es (new window))
      ≡ elim (latest_failure id es) [ none ↦ false | some t ↦ ltb now (t + window) ]
is_offline_lem window es id now o =
    subst
      (λ (n : ℕ).
        is_offline id now (after_all es (new window))
        ≡ elim (latest_failure id es) [ none ↦ false | some t ↦ ltb now (t + n) ])
      (after_all-window es window)
      (answer (after_all es (new window)) id now (latest_failure id es)
        (after_all-Holds es window id now o))
