-- ===== src/Ddb.antt =====
-- The distributed database of adverts: bingle_core/src/ddb/mod.rs. This file holds
-- `InMemoryDdbBackend`, with the clock's reading as an argument.
pub mod Record
pub mod Messages
pub mod Evict
pub mod Store
pub mod Epoch
pub mod Adverts
mod Examples
use bingle_rust.Base.{
  ℕ, ◌-◌, Bool, true, false, not, ◌&&◌, ◌||◌, Option, none, some, List, [], ◌∷◌, map, retain,
  length, ◌==◌, leb, if◌then◌else◌,
}
use bingle_rust.Base.Eq.{◌=?◌, option_eq}
use bingle_rust.Base.Str.{Str, str_eq}
use bingle_rust.Base.Map
use bingle_rust.Base.Map.{Map}
use bingle_rust.Base.Order.{sort_by}
use bingle_rust.Ddb.Record.{AdvertRecord, InetSocketAddress, is_relay_record}

-- `Duration::from_secs(600)`, in nanoseconds.
abbrev pub default_advert_ttl : ℕ
default_advert_ttl = 600000000000

unfoldable pub effective_advert_ttl : Option ℕ → Option ℕ
effective_advert_ttl none = some default_advert_ttl
effective_advert_ttl (some ttl) = if ttl == 0 then none else some ttl

pub record StoredRecord : Type 0 where
  pub advert : AdvertRecord
  pub received : ℕ

pub record InMemoryDdbBackend : Type 0 where
  pub entries : Map Str StoredRecord
  pub advert_ttl : Option ℕ
  pub own_id : Option Str

abbrev pub with_advert_ttl : Option ℕ → InMemoryDdbBackend
with_advert_ttl advert_ttl = record { entries = []; advert_ttl = advert_ttl; own_id = none }

abbrev pub new : InMemoryDdbBackend
new = with_advert_ttl none

abbrev pub set_own_id : Str → InMemoryDdbBackend → InMemoryDdbBackend
set_own_id own_id b = record b { own_id = some own_id }

-- `saturating_duration_since` is the subtraction that stops at 0.
unfoldable pub is_expired : InMemoryDdbBackend → ℕ → StoredRecord → Bool
is_expired b now stored = elim b.advert_ttl [
  | none ↦ false
  | some ttl ↦
      if is_relay_record stored.advert || (b.own_id =? some stored.advert.id)
      then false
      else leb ttl (now - stored.received)
]

-- The values of the map, in the order of the entries; every use of them sorts or counts.
abbrev pub values : Map Str StoredRecord → List StoredRecord
values = map (λ (e : Str × StoredRecord). e.1)

abbrev pub adverts : List StoredRecord → List AdvertRecord
adverts = map (λ (s : StoredRecord). s.advert)

unfoldable pub live_records : InMemoryDdbBackend → ℕ → List AdvertRecord
live_records b now =
    adverts (retain (λ (s : StoredRecord). not (is_expired b now s)) (values b.entries))

unfoldable pub upsert : AdvertRecord → ℕ → InMemoryDdbBackend → InMemoryDdbBackend
upsert advert now b = record b {
  entries = Map.insert advert.id (record { advert = advert; received = now }) b.entries;
}

unfoldable pub delete : Str → InMemoryDdbBackend → InMemoryDdbBackend
delete id b = record b { entries = Map.remove id b.entries }

unfoldable pub lookup : InMemoryDdbBackend → ℕ → Str → Option AdvertRecord
lookup b now id = elim (Map.get b.entries id) [
  | none ↦ none
  | some s ↦ if is_expired b now s then none else some s.advert
]

abbrev pub advert_id : AdvertRecord → Str
advert_id advert = advert.id

abbrev pub ids : List AdvertRecord → List Str
ids = map advert_id

-- The endpoints where every record has one.
unfoldable pub all_endpoints : List AdvertRecord → Option (List InetSocketAddress)
all_endpoints [] = some []
all_endpoints (r ∷ rest) = elim r.endpoint [
  | none ↦ none
  | some e ↦ elim (all_endpoints rest) [ none ↦ none | some es ↦ some (e ∷ es) ]
]

unfoldable pub make_epoch_info : InMemoryDdbBackend → ℕ → List Str × Option (List InetSocketAddress)
make_epoch_info b now =
    let relays = sort_by advert_id (retain is_relay_record (live_records b now)) in
    (ids relays, all_endpoints relays)

-- `len`.
unfoldable pub size : InMemoryDdbBackend → ℕ → ℕ
size b now = length (live_records b now)

unfoldable pub remove_each : List Str → Map Str StoredRecord → Map Str StoredRecord
remove_each [] m = m
remove_each (id ∷ rest) m = remove_each rest (Map.remove id m)

unfoldable pub sweep_expired : ℕ → InMemoryDdbBackend → InMemoryDdbBackend × List Str
sweep_expired now b =
    let expired = ids (adverts (retain (is_expired b now) (values b.entries))) in
    (record b { entries = remove_each expired b.entries }, expired)
