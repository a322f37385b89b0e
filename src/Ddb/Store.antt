-- ===== src/Ddb/Store.antt =====
-- The database as a store of the latest advert of each node (bingle_core/src/ddb/mod.rs).
pub mod Sound
pub mod Refines
use bingle_rust.Base.{true, ◌-◌, ◌<◌, ℕ, ◌≤◌, ◌≡◌, Option, none, some, List, [], ◌∷◌, if◌then◌else◌}
use bingle_rust.Base.Eq.{◌=?◌}
use bingle_rust.Base.Str.{Str, str_eq}
use bingle_rust.Base.Map
use bingle_rust.Base.Map.{Map}
use bingle_rust.Ddb.Record.{AdvertRecord}
use bingle_rust.Ddb.{InMemoryDdbBackend, StoredRecord, is_expired, upsert, delete, sweep_expired}

-- What changes the database. An upsert and a sweep read the clock.
pub data Change : Type 0 where
  upserts : AdvertRecord → ℕ → Change
  deletes : Str → Change
  sweeps : ℕ → Change

unfoldable pub change : Change → InMemoryDdbBackend → InMemoryDdbBackend
change (upserts advert now) b = upsert advert now b
change (deletes id) b = delete id b
change (sweeps now) b = (sweep_expired now b).0

unfoldable pub change_all : List Change → InMemoryDdbBackend → InMemoryDdbBackend
change_all [] b = b
change_all (c ∷ rest) b = change_all rest (change c b)

-- The abstract store knows the latest advert of each node, however old, until it is deleted.
abbrev pub Store : Type 0
Store = Str → Option StoredRecord

unfoldable pub remember : Change → Store → Store
remember (upserts advert now) f id =
    if advert.id =? id then some (record { advert = advert; received = now }) else f id
remember (deletes gone) f id = if gone =? id then none else f id
remember (sweeps now) f id = f id

unfoldable pub remember_all : List Change → Store → Store
remember_all [] f = f
remember_all (c ∷ rest) f = remember_all rest (remember c f)

-- What of a stored advert can be seen.
unfoldable pub seen : InMemoryDdbBackend → ℕ → Option StoredRecord → Option AdvertRecord
seen b now none = none
seen b now (some s) = if is_expired b now s then none else some s.advert

-- Why an advert is still shown: adverts do not expire, it is the advert of a relay or of this node, or
-- it is younger than the time to live.
pub data Lasts (advert_ttl : Option ℕ) (own_id : Option Str) (now : ℕ) (s : StoredRecord)
    : Type 0 where
  unlimited : advert_ttl ≡ none → Lasts advert_ttl own_id now s
  of_relay : s.advert.am_relay ≡ some true → Lasts advert_ttl own_id now s
  of_own : own_id ≡ some s.advert.id → Lasts advert_ttl own_id now s
  young : (ttl : ℕ) → advert_ttl ≡ some ttl → now - s.received < ttl → Lasts advert_ttl own_id now s

-- A sweep is not later than the time given.
abbrev pub NotLater : ℕ → Change → Type 0
NotLater now (upserts advert at) = Unit
NotLater now (deletes id) = Unit
NotLater now (sweeps at) = at ≤ now

-- Each entry stands once, under the id of its advert.
abbrev pub IsSound : Map Str StoredRecord → Type 0
IsSound [] = Unit {0}
IsSound ((k, s) ∷ m) = (s.advert.id ≡ k) × (Map.get m k ≡ none) × IsSound m
