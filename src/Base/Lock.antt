-- ===== src/Base/Lock.antt =====
-- `std::sync::Mutex`: a value, and the mark that a thread panicked while it held the lock.
use mathlib.Core.Bool.{Bool, false}
use mathlib.Core.Option.{Option, none, some}
use bingle_rust.Base.Tests.{if◌then◌else◌}
use bingle_rust.Base.Lists.{◌>>=◌}

pub record Mutex {ℓ} (A : Type ℓ) : Type ℓ where
  pub inner : A
  pub poisoned : Bool

-- `Mutex::new`.
abbrev pub new {ℓ} : {A : Type ℓ} → A → Mutex A
new a = record { inner = a; poisoned = false }

-- `lock()`: `none` is the error of a poisoned lock.
abbrev pub lock {ℓ} : {A : Type ℓ} → Mutex A → Option A
lock m = if m.poisoned then none else some m.inner

-- Two locks taken together, `if let (Ok(a), Ok(b)) = (m.lock(), n.lock())`.
abbrev pub lock2 {ℓ} : {A B : Type ℓ} → Mutex A → Mutex B → Option (A × B)
lock2 m n = do a ← lock m; b ← lock n; some (a, b)

-- A write through the guard.
abbrev pub write {ℓ} : {A : Type ℓ} → Mutex A → A → Mutex A
write m a = record m { inner = a }
