-- ===== src/Ddb/Adverts/Refresh.antt =====
-- When this node refreshes its advert (bingle_core/src/engine/advert_lifecycle.rs).
use bingle_rust.Base.{
  ℕ, ◌/◌, ◌≡◌, refl, sym, ap, Bool, true, false, Option, none, some, List, [], ◌∷◌, if◌then◌else◌,
  Bool-cases, inl, inr, subst,
}
use bingle_rust.Base.Str.{Str}
use bingle_rust.Base.Lock.{Mutex, new}
use bingle_rust.Ddb.{InMemoryDdbBackend}
use bingle_rust.Ddb.Adverts.{
  AdvertRegistration, is_relay, Task, Engine, start_advert_refresh, stop_advert_refresh,
  note_advert_registered, take_advert_registration, start_advert_expiry_sweep,
  stop_advert_expiry_sweep, sweep_expired_adverts,
}

pub data Event : Type 0 where
  notes : AdvertRegistration → Event
  takes : Event
  stops : Event
  starts_sweep : Option Str → Event
  stops_sweep : Event
  sweeps : ℕ → Event

unfoldable pub happen : Event → Engine → Engine
happen (notes registration) e = note_advert_registered registration e
happen takes e = (take_advert_registration e).0
happen stops e = stop_advert_refresh e
happen (starts_sweep issuer) e = start_advert_expiry_sweep issuer e
happen stops_sweep e = stop_advert_expiry_sweep e
happen (sweeps now) e = (sweep_expired_adverts now e).0

unfoldable pub happen_all : List Event → Engine → Engine
happen_all [] e = e
happen_all (v ∷ rest) e = happen_all rest (happen v e)

-- What a node wants: the registration to repeat, and whether to repeat it.
abbrev pub Wish : Type 0
Wish = Option AdvertRegistration × Bool

unfoldable pub wish : Event → Wish → Wish
wish (notes registration) w = (some registration, (if is_relay registration then false else true))
wish takes w = (none, false)
wish stops w = (w.0, false)
wish (starts_sweep issuer) w = w
wish stops_sweep w = w
wish (sweeps now) w = w

unfoldable pub wish_all : List Event → Wish → Wish
wish_all [] w = w
wish_all (v ∷ rest) w = wish_all rest (wish v w)

-- The task that refreshes, where adverts expire and the node wants it.
unfoldable pub task : Option ℕ → Bool → Option Task
task none wanted = none
task (some ttl) wanted = if wanted then some (record { interval = ttl / 3 }) else none

-- An engine that does what the node wants, whatever its sweeper and its database.
abbrev pub arranged : Option ℕ → Wish → Mutex (Option Task) → Mutex InMemoryDdbBackend → Engine
arranged ttl w sweeper backend = record {
  advert_ttl = ttl;
  advert_registration = new w.0;
  advert_refresher = new (task ttl w.1);
  advert_sweeper = sweeper;
  ddb_backend = backend;
}

abbrev pub Grants : Option ℕ → Wish → Engine → Type 0
Grants ttl w e = e ≡ arranged ttl w e.advert_sweeper e.ddb_backend

stop-Grants :
    (ttl : Option ℕ) (w : Wish) (s : Mutex (Option Task)) (b : Mutex InMemoryDdbBackend)
    → stop_advert_refresh (arranged ttl w s b) ≡ arranged ttl (w.0, false) s b
unfolding stop_advert_refresh task
stop-Grants none w s b = refl
stop-Grants (some t) w s b = refl

start-Grants :
    (ttl : Option ℕ) (w : Wish) (s : Mutex (Option Task)) (b : Mutex InMemoryDdbBackend)
    → start_advert_refresh (arranged ttl w s b) ≡ arranged ttl (w.0, true) s b
unfolding start_advert_refresh task
start-Grants none w s b = refl
start-Grants (some t) (o, true) s b = refl
start-Grants (some t) (o, false) s b = refl

note-Grants :
    (r : AdvertRegistration) (ttl : Option ℕ) (w : Wish) (s : Mutex (Option Task))
    (b : Mutex InMemoryDdbBackend)
    → note_advert_registered r (arranged ttl w s b)
      ≡ arranged ttl (some r, (if is_relay r then false else true)) s b
unfolding note_advert_registered
note-Grants r ttl w s b = elim (Bool-cases (is_relay r)) [
  | inl e ↦ rw e (stop-Grants ttl (some r, w.1) s b)
  | inr e ↦ rw e (start-Grants ttl (some r, w.1) s b)
]

take-Grants :
    (ttl : Option ℕ) (w : Wish) (s : Mutex (Option Task)) (b : Mutex InMemoryDdbBackend)
    → take_advert_registration (arranged ttl w s b) ≡ (arranged ttl (none, false) s b, w.0)
unfolding take_advert_registration stop_advert_refresh task
take-Grants none w s b = refl
take-Grants (some t) w s b = refl

Grants-arranged :
    (ttl : Option ℕ) (w : Wish) (s : Mutex (Option Task)) (b : Mutex InMemoryDdbBackend)
    (e : Engine)
    → e ≡ arranged ttl w s b
    → Grants ttl w e
Grants-arranged ttl w s b e same = subst (λ x. Grants ttl w x) (sym same) refl

happen-Grants :
    (v : Event) (ttl : Option ℕ) (w : Wish) (s : Mutex (Option Task)) (b : Mutex InMemoryDdbBackend)
    → Grants ttl (wish v w) (happen v (arranged ttl w s b))
unfolding happen wish start_advert_expiry_sweep stop_advert_expiry_sweep sweep_expired_adverts
happen-Grants (notes r) ttl w s b = Grants-arranged ttl _ s b _ (note-Grants r ttl w s b)
happen-Grants takes ttl w s b = Grants-arranged ttl _ s b _ (ap (λ r. r.0) (take-Grants ttl w s b))
happen-Grants stops ttl w s b = Grants-arranged ttl _ s b _ (stop-Grants ttl w s b)
happen-Grants (starts_sweep issuer) none w s b = refl
happen-Grants (starts_sweep issuer) (some t) w s b = elim (Bool-cases s.poisoned) [
  | inl e ↦ rw e refl
  | inr e ↦ rw e refl
]
happen-Grants stops_sweep ttl w s b = elim (Bool-cases s.poisoned) [
  | inl e ↦ rw e refl
  | inr e ↦ rw e refl
]
happen-Grants (sweeps now) ttl w s b = elim (Bool-cases b.poisoned) [
  | inl e ↦ rw e refl
  | inr e ↦ rw e refl
]

-- Whatever registrations, sign-offs, stops and sweeps an engine with sound locks goes through, it
-- holds the registration noted last and not taken since, and a refresh task of a third of the time
-- to live runs exactly if adverts expire and the last of the registrations, sign-offs and stops was
-- the registration of a client.
pub happen_all-Grants :
    (events : List Event) (ttl : Option ℕ) (w : Wish) (s : Mutex (Option Task))
    (b : Mutex InMemoryDdbBackend)
    → Grants ttl (wish_all events w) (happen_all events (arranged ttl w s b))
unfolding happen_all wish_all
happen_all-Grants [] ttl w s b = refl
happen_all-Grants (v ∷ rest) ttl w s b =
    let e = happen v (arranged ttl w s b) in
    subst (λ x. Grants ttl (wish_all rest (wish v w)) (happen_all rest x))
      (sym (happen-Grants v ttl w s b))
      (happen_all-Grants rest ttl (wish v w) e.advert_sweeper e.ddb_backend)
