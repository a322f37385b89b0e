-- ===== src/Ddb/Epoch.antt =====
-- What the database tells of the relays: `make_epoch_info` of bingle_core/src/ddb/mod.rs.
pub mod Live
pub mod Info
use bingle_rust.Base.{
  ℕ, ◌≡◌, ◌↔◌, ◌⊎◌, inl, inr, refl, sym, ap, subst, ◌∙◌, Bool, true, false, not, Option, none, some,
  List, [], ◌∷◌, All, map, retain, length, if◌then◌else◌, arith, Bool-cases, Option-cases, ◌>>=◌,
}
use Prim.Native.Nat.{Ordering}
use bingle_rust.Base.Eq.{◌=?◌}
use bingle_rust.Base.Str.{Str, str_eq, str_beq_iff, cmp, cmp-eq_iff}
use bingle_rust.Base.Sets.{contains}
use bingle_rust.Base.Map
use bingle_rust.Base.Map.{Map}
use bingle_rust.Base.Members.{retain-In, retain-IsUnique, map-In, map-IsUnique}
use bingle_rust.Base.Order.{
  In, sort_by, IsOrdered, IsUnique, IsAbsent, sort_by-In, sort_by-IsOrdered, sort_by-IsUnique,
}
use bingle_rust.Ddb.Record.{AdvertRecord, InetSocketAddress, is_relay_record}
use bingle_rust.Ddb.{
  InMemoryDdbBackend, StoredRecord, values, adverts, ids, advert_id, is_expired, live_records,
  lookup, all_endpoints, make_epoch_info,
}
use bingle_rust.Ddb.Store.{Change, change_all, IsSound}
use bingle_rust.Ddb.Store.Sound.{change_all-IsSound}

abbrev pub stored_id : StoredRecord → Str
stored_id s = s.advert.id

-- Each text comes before all that follow.
abbrev pub IsAscending : List Str → Type 0
IsAscending [] = Unit {0}
IsAscending (x ∷ xs) = ((y : Str) → In y xs → cmp x y ≡ Ordering.lt) × IsAscending xs

-- The live adverts of relays, in the order of their ids.
unfoldable pub relays : InMemoryDdbBackend → ℕ → List AdvertRecord
relays b now = sort_by advert_id (retain is_relay_record (live_records b now))

-- What the ids and endpoints say of the database.
pub record IsEpoch (b : InMemoryDdbBackend) (now : ℕ) (l : List Str)
    (endpoints : Option (List InetSocketAddress)) : Type 0 where
  pub ascending : IsAscending l
  pub members :
      (id : Str)
      → In id l ↔ ((r : AdvertRecord) × (lookup b now id ≡ some r) × (is_relay_record r ≡ true))
  pub aligned :
      (es : List InetSocketAddress)
      → endpoints ≡ some es
      → map (λ (id : Str). lookup b now id >>= (λ (r : AdvertRecord). r.endpoint)) l ≡ map some es
  pub missing :
      (endpoints ≡ none)
      ↔ ((id : Str) × In id l × ((lookup b now id >>= (λ (r : AdvertRecord). r.endpoint)) ≡ none))
  pub no_relays : l ≡ [] → endpoints ≡ some []
