-- ===== src/Relays/Updater.antt =====
-- `RelayUpdater` (bingle_core/src/relay/relay_updater.rs): what a relay's status does to the cache, and
-- the order in which candidates are probed.
pub mod Order
pub mod Select
pub mod Chosen
pub mod Whole
mod Examples
use bingle_rust.Base.{
  ℕ, zero, suc, ◌+◌, ◌/◌, ◌%◌, ◌^◌, Bool, true, false, not, ◌&&◌, ◌||◌, Option, none, some, List,
  [], ◌∷◌, ◌==◌, map, retain, find, length, if◌then◌else◌,
}
use bingle_rust.Base.Eq.{◌=?◌}
use bingle_rust.Base.Sets.{contains}
use bingle_rust.Base.Str.{Str, str_eq}
use bingle_rust.Net.{SocketAddr}
use bingle_rust.Ddb.Record.{InetSocketAddress}
use bingle_rust.Relays.Cache.{
  RelayInfo, RelayInfoCache, RelayState, own, available, off, sort_by_id, has_id, list_all_relays,
  replace_relays,
}

-- Of the answer to a probe, what is read.
pub record DdbRelaysStatusResponse : Type 0 where
  pub responder_state : RelayState
  pub relay_ids : List Str
  pub relay_states : List RelayState
  pub relay_endpoints : Option (List InetSocketAddress)

unfoldable pub is_available : RelayState → Bool
is_available s = elim s [ available ↦ true | _ ↦ false ]

unfoldable pub is_own : Option RelayState → Bool
is_own s = elim s [ some own ↦ true | _ ↦ false ]

unfoldable pub ttl_for_state : RelayState → ℕ
ttl_for_state s = elim s [ own ↦ 30000 | available ↦ 300 | _ ↦ 30 ]

-- The entries of a status, where every endpoint is an address; `parse` reads an address.
unfoldable pub entries :
    (InetSocketAddress → Option SocketAddr)
    → ℕ
    → Str
    → List Str
    → List RelayState
    → List InetSocketAddress
    → Option (List RelayInfo)
entries parse now my_id (id ∷ ids) (given ∷ states) (e ∷ endpoints) =
    let rest = entries parse now my_id ids states endpoints in
    elim (parse e) [
      | none ↦ none
      | some address ↦ elim rest [
        | none ↦ none
        | some l ↦
            let state = if id =? my_id then own else given in
            some (
              record {
                id = id;
                address = some address;
                is_root = true;
                state = some state;
                ttl = some (ttl_for_state state);
                last_updated = now;
              }
              ∷ l)
      ]
    ]
entries parse now my_id ids states endpoints = some []

unfoldable pub update_cache_from_status :
    (InetSocketAddress → Option SocketAddr)
    → ℕ
    → DdbRelaysStatusResponse
    → Str
    → RelayInfoCache
    → RelayInfoCache × Bool
update_cache_from_status parse now status my_id c = elim status.relay_endpoints [
  | none ↦ (c, false)
  | some endpoints ↦
      if not (length status.relay_ids == length status.relay_states)
        || not (length status.relay_ids == length endpoints)
      then (c, false)
      else elim (entries parse now my_id status.relay_ids status.relay_states endpoints) [
        | none ↦ (c, false)
        | some updated ↦ (replace_relays updated c, true)
      ]
]

-- The first entry with the id gets the state.
unfoldable pub set_state : Str → RelayState → List RelayInfo → Option (List RelayInfo)
set_state relay_id state [] = none
set_state relay_id state (r ∷ rs) =
    let rest = set_state relay_id state rs in
    if r.id =? relay_id
    then some (record r { state = some state; ttl = some (ttl_for_state state) } ∷ rs)
    else elim rest [ none ↦ none | some l ↦ some (r ∷ l) ]

unfoldable pub update_cached_relay_state : Str → Str → RelayState → RelayInfoCache → RelayInfoCache
update_cached_relay_state my_id relay_id state c =
    elim (set_state relay_id state (list_all_relays my_id true c)) [
      | none ↦ c
      | some relays ↦ replace_relays relays c
    ]

unfoldable pub accept_available :
    (InetSocketAddress → Option SocketAddr)
    → ℕ
    → RelayInfo
    → DdbRelaysStatusResponse
    → Str
    → RelayInfoCache
    → RelayInfoCache × Option RelayInfo
accept_available parse now candidate status my_id c =
    let updated = update_cache_from_status parse now status my_id c in
    if not updated.1
    then (update_cached_relay_state my_id candidate.id off updated.0, none)
    else elim (find (has_id candidate.id) (list_all_relays my_id true updated.0)) [
      | some relay ↦ (updated.0, some relay)
      | none ↦ (
        updated.0,
        some (record candidate { is_root = true; state = some available; ttl = some 300 }),
      )
    ]

-- The bucket is the number of 32 bits that the node's id stands for. More than 2 ^ 32 relays, for
-- which the source divides by zero, are not considered.
unfoldable pub select_indices : ℕ → ℕ → ℕ × ℕ
select_indices n bucket =
    if n == 1 then (0, 0) else let index = bucket / (2 ^ 32 / n) % n in (index, (index + 1) % n)

-- `start .. start + count`.
unfoldable pub range : ℕ → ℕ → List ℕ
range start zero = []
range start (suc count) = start ∷ range (suc start) count

unfoldable pub selection_order : ℕ → ℕ → List ℕ
selection_order n bucket =
    if n == 0 then [] else map (λ offset. ((select_indices n bucket).0 + offset) % n) (range 0 n)

-- An entry with the same id as the one kept before it is left out.
unfoldable pub dedup_after : Str → List RelayInfo → List RelayInfo
dedup_after id [] = []
dedup_after id (r ∷ rs) =
    let same = dedup_after id rs in
    let other = dedup_after r.id rs in if r.id =? id then same else r ∷ other

unfoldable pub dedup_by_id : List RelayInfo → List RelayInfo
dedup_by_id [] = []
dedup_by_id (r ∷ rs) = r ∷ dedup_after r.id rs

-- The relays that a selection may probe.
unfoldable pub selectable : Str → List Str → RelayInfoCache → List RelayInfo
selectable my_id exclude_ids c = dedup_by_id (
    sort_by_id (
      retain
        (λ (r : RelayInfo).
          not (is_own r.state) && not (r.id =? my_id) && not (contains exclude_ids r.id))
        (list_all_relays my_id true c)))

unfoldable pub get_at : List RelayInfo → ℕ → Option RelayInfo
get_at [] n = none
get_at (r ∷ rs) zero = some r
get_at (r ∷ rs) (suc n) = get_at rs n

-- `filter_map` of the candidates over the order.
unfoldable pub ranked : List RelayInfo → List ℕ → List RelayInfo
ranked relays [] = []
ranked relays (i ∷ is) =
    let rest = ranked relays is in elim (get_at relays i) [ none ↦ rest | some r ↦ r ∷ rest ]

-- What is probed: those that are not cooling down, or all where every one is.
unfoldable pub to_probe : (Str → Bool) → List RelayInfo → List RelayInfo
to_probe cooling relays = elim (retain (λ (r : RelayInfo). not (cooling r.id)) relays) [
  | [] ↦ relays
  | r ∷ rs ↦ r ∷ rs
]
