-- ===== src/Ddb/Adverts.antt =====
-- The adverts of this node and their expiry: `AdvertRegistration` of bingle_core/src/ddb/mod.rs and
-- bingle_core/src/engine/advert_lifecycle.rs.
pub mod Refresh
use bingle_rust.Base.{
  ℕ, ◌/◌, Bool, true, false, Option, none, some, List, [], ◌∷◌, if◌then◌else◌, ◌>>=◌,
}
use bingle_rust.Base.Lock.{Mutex, lock, write}
use bingle_rust.Base.Str.{Str}
use bingle_rust.Net.{SocketAddr}
use bingle_rust.Relays.Cache.{trim_issuer_suffix}
use bingle_rust.Ddb.{InMemoryDdbBackend, set_own_id, sweep_expired}

pub data AdvertRegistration : Type 0 where
  ip : SocketAddr → Bool → AdvertRegistration
  relay : Str → Option Str → AdvertRegistration

unfoldable pub is_relay : AdvertRegistration → Bool
is_relay (ip endpoint am_relay) = am_relay
is_relay (relay relay_id relay_sig) = false

-- A running task: how long it waits before each pass.
pub record Task : Type 0 where
  pub interval : ℕ

-- What the engine keeps of the adverts.
pub record Engine : Type 0 where
  pub advert_ttl : Option ℕ
  pub advert_registration : Mutex (Option AdvertRegistration)
  pub advert_refresher : Mutex (Option Task)
  pub advert_sweeper : Mutex (Option Task)
  pub ddb_backend : Mutex InMemoryDdbBackend

unfoldable pub start_advert_refresh : Engine → Engine
start_advert_refresh e = elim e.advert_ttl [
  | none ↦ e
  | some ttl ↦ elim (lock e.advert_refresher) [
    | none ↦ e
    | some (some running) ↦ e
    | some none ↦ record e {
      advert_refresher = write e.advert_refresher (some (record { interval = ttl / 3 }));
    }
  ]
]

unfoldable pub stop_advert_refresh : Engine → Engine
stop_advert_refresh e = elim (lock e.advert_refresher) [
  | none ↦ e
  | some running ↦ record e { advert_refresher = write e.advert_refresher none }
]

unfoldable pub note_advert_registered : AdvertRegistration → Engine → Engine
note_advert_registered registration e = elim (lock e.advert_registration) [
  | none ↦ e
  | some before ↦
      let noted = record e {
        advert_registration = write e.advert_registration (some registration);
      } in
      if is_relay registration then stop_advert_refresh noted else start_advert_refresh noted
]

unfoldable pub take_advert_registration : Engine → Engine × Option AdvertRegistration
take_advert_registration e =
    let stopped = stop_advert_refresh e in
    elim (lock stopped.advert_registration) [
      | none ↦ (stopped, none)
      | some registration ↦ (
        record stopped { advert_registration = write stopped.advert_registration none },
        registration,
      )
    ]

-- What a pass of the refresh asks the client of the database.
pub data Request : Type 0 where
  register_ip : SocketAddr → Bool → Request
  register_relay : Str → Option Str → Request

unfoldable pub register : AdvertRegistration → Request
register (ip endpoint am_relay) = register_ip endpoint am_relay
register (relay relay_id relay_sig) = register_relay relay_id relay_sig

-- One pass: the requests made, and whether the task goes on. `alive` says that the API is still
-- there, `renewed` is the answer of `renew_home_relay_listen`.
unfoldable pub refresh_pass : Bool → Bool → Engine → List Request × Bool
refresh_pass alive renewed e =
    if alive
    then elim (lock e.advert_registration >>= (λ o. o)) [
      | none ↦ ([], true)
      | some (ip endpoint am_relay) ↦ (register (ip endpoint am_relay) ∷ [], true)
      | some (relay relay_id relay_sig) ↦
          (if renewed then (register (relay relay_id relay_sig) ∷ [], true) else ([], true))
    ]
    else ([], false)

-- On a relay. The issuer is `none` where the engine has none yet.
unfoldable pub mark_own : Option Str → Mutex InMemoryDdbBackend → Mutex InMemoryDdbBackend
mark_own none m = m
mark_own (some issuer) m = elim (lock m) [
  | none ↦ m
  | some b ↦ write m (set_own_id (trim_issuer_suffix issuer) b)
]

unfoldable pub start_advert_expiry_sweep : Option Str → Engine → Engine
start_advert_expiry_sweep issuer e =
    let marked = record e { ddb_backend = mark_own issuer e.ddb_backend } in
    elim marked.advert_ttl [
      | none ↦ marked
      | some ttl ↦ elim (lock marked.advert_sweeper) [
        | none ↦ marked
        | some before ↦ record marked {
          advert_sweeper = write marked.advert_sweeper (some (record { interval = ttl / 2 }));
        }
      ]
    ]

unfoldable pub stop_advert_expiry_sweep : Engine → Engine
stop_advert_expiry_sweep e = elim (lock e.advert_sweeper) [
  | none ↦ e
  | some running ↦ record e { advert_sweeper = write e.advert_sweeper none }
]

unfoldable pub sweep_expired_adverts : ℕ → Engine → Engine × List Str
sweep_expired_adverts now e = elim (lock e.ddb_backend) [
  | none ↦ (e, [])
  | some b ↦
      let swept = sweep_expired now b in
      (record e { ddb_backend = write e.ddb_backend swept.0 }, swept.1)
]
