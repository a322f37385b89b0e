-- ===== src/Relays/Cache.antt =====
-- `RelayInfoCache` (bingle_core/src/relay/relay_info_cache.rs) and `RelayInfo` (relay_finder.rs).
pub mod Sort
pub mod Find
pub mod Unique
pub mod Changes
use bingle_rust.Base.{
  ℕ, Bool, true, false, not, Option, none, some, List, [], ◌∷◌, ◌++◌, ◌==◌, map, retain, find, any,
  length, ◌&&◌, if◌then◌else◌, ◌>>=◌,
}
use Prim.Native.Nat.{Ordering}
use bingle_rust.Base.Eq.{◌=?◌}
use bingle_rust.Base.Order.{sort_by}
use bingle_rust.Base.Lock
use bingle_rust.Base.Lock.{Mutex, lock, write}
use bingle_rust.Base.Str.{Str, str_eq, cmp}
use bingle_rust.Net.{SocketAddr}
use bingle_rust.Net.Endpoint.{NetworkEndpoint, new_direct}
use bingle_rust.Relays.Corner.{is_excluded_corner}

pub data RelayState : Type 0 where
  unknown : RelayState
  off : RelayState
  starting : RelayState
  loading : RelayState
  loaded : RelayState
  available : RelayState
  own : RelayState

-- Of the advert record, the id and the endpoint's address are read. `address` panics on none.
pub record RelayInfo : Type 0 where
  pub id : Str
  pub address : Option SocketAddr
  pub is_root : Bool
  pub state : Option RelayState
  pub ttl : Option ℕ
  pub last_updated : ℕ

abbrev pub RelayInfoCache : Type 0
RelayInfoCache = Mutex (List RelayInfo)

abbrev pub new : List RelayInfo → RelayInfoCache
new relays = Lock.new relays

-- `sort_by` on the id.
abbrev pub sort_by_id : List RelayInfo → List RelayInfo
sort_by_id = sort_by (λ (r : RelayInfo). r.id)

abbrev pub has_id : Str → RelayInfo → Bool
has_id id r = r.id =? id

unfoldable pub push : RelayInfo → List RelayInfo → List RelayInfo
push relay relays = relays ++ (relay ∷ [])

unfoldable pub add_relay : RelayInfo → RelayInfoCache → RelayInfoCache × Bool
unfolding push
add_relay relay c = elim (lock c) [
  | none ↦ (c, false)
  | some relays ↦
      if any (has_id relay.id) relays
      then (c, false)
      else (write c (sort_by_id (push relay relays)), true)
]

-- The first entry with the id, where there is one, is replaced.
unfoldable pub replace_first : RelayInfo → List RelayInfo → Option (List RelayInfo)
replace_first relay [] = none
replace_first relay (q ∷ qs) =
    let rest = replace_first relay qs in
    if q.id =? relay.id
    then some (relay ∷ qs)
    else elim rest [ none ↦ none | some l ↦ some (q ∷ l) ]

unfoldable pub update_relay : RelayInfo → ℕ → RelayInfoCache → RelayInfoCache × Bool
update_relay relay now c = elim (lock c) [
  | none ↦ (c, false)
  | some relays ↦ elim (replace_first (record relay { last_updated = now }) relays) [
    | none ↦ (c, false)
    | some l ↦ (write c (sort_by_id l), true)
  ]
]

unfoldable pub delete_relay : Str → RelayInfoCache → RelayInfoCache × Bool
delete_relay relay_id c = elim (lock c) [
  | none ↦ (c, false)
  | some relays ↦
      let left = retain (λ (r : RelayInfo). not (r.id =? relay_id)) relays in
      (write c left, not (length left == length relays))
]

unfoldable pub is_empty : RelayInfoCache → Bool
is_empty c = elim (lock c) [ none ↦ true | some relays ↦ length relays == 0 ]

unfoldable pub replace_relays : List RelayInfo → RelayInfoCache → RelayInfoCache
replace_relays relays c = elim (lock c) [ none ↦ c | some _ ↦ write c (sort_by_id relays) ]

abbrev pub snapshot_relays : RelayInfoCache → List RelayInfo
snapshot_relays c = elim (lock c) [ none ↦ [] | some relays ↦ relays ]

-- `trim_end_matches(".")`.
unfoldable pub trim_issuer_suffix : Str → Str
trim_issuer_suffix [] = []
trim_issuer_suffix (b ∷ bs) = elim (trim_issuer_suffix bs) [
  | [] ↦ if b == b'.' then [] else b ∷ []
  | x ∷ xs ↦ b ∷ x ∷ xs
]

abbrev pub not_self : Bool → Str → List RelayInfo → List RelayInfo
not_self include_self my_id relays =
    if include_self then relays else retain (λ (r : RelayInfo). not (r.id =? my_id)) relays

unfoldable pub list_all_relays : Str → Bool → RelayInfoCache → List RelayInfo
list_all_relays my_id include_self c =
    sort_by_id (not_self include_self (trim_issuer_suffix my_id) (snapshot_relays c))

unfoldable pub list_root_relays : Str → Bool → RelayInfoCache → List RelayInfo
list_root_relays my_id include_self c = sort_by_id (
    not_self include_self (trim_issuer_suffix my_id)
      (retain (λ (r : RelayInfo). r.is_root) (snapshot_relays c)))

unfoldable pub clear_states : List RelayInfo → List RelayInfo
clear_states [] = []
clear_states (r ∷ rs) = record r { state = none } ∷ clear_states rs

unfoldable pub clear_state_cache : RelayInfoCache → RelayInfoCache
clear_state_cache c = elim (lock c) [ none ↦ c | some relays ↦ write c (clear_states relays) ]

-- The outcome of a search; panicked where the address of a candidate is missing.
pub data Found : Type 0 where
  found : RelayInfo → Found
  not_found : Found
  panicked : Found

-- The candidates for a corner, and none where an address is missing.
unfoldable pub candidates : Str → List SocketAddr → List RelayInfo → Option (List RelayInfo)
candidates my_id exclude [] = some []
candidates my_id exclude (r ∷ rs) =
    let rest = candidates my_id exclude rs in
    if r.id =? my_id then rest else elim r.address [
      | none ↦ none
      | some address ↦
          if is_excluded_corner address exclude
          then rest
          else elim rest [ none ↦ none | some l ↦ some (r ∷ l) ]
    ]

unfoldable pub first_found : List RelayInfo → Found
first_found [] = not_found
first_found (r ∷ rs) = found r

unfoldable pub find_relay_excluding : Str → List SocketAddr → RelayInfoCache → Found
find_relay_excluding my_id exclude c =
    elim (candidates (trim_issuer_suffix my_id) exclude (snapshot_relays c)) [
      | none ↦ panicked
      | some l ↦ first_found (sort_by_id l)
    ]

abbrev pub find_relay : Str → RelayInfoCache → Found
find_relay my_id c = find_relay_excluding my_id [] c

-- `none` beside the panic of a root relay without an address.
unfoldable pub lookup_root_id : Str → RelayInfoCache → Option (Option NetworkEndpoint)
lookup_root_id id c =
    elim (find (λ (r : RelayInfo). (r.id =? trim_issuer_suffix id) && r.is_root)
      (snapshot_relays c)) [
        | none ↦ some none
        | some r ↦ elim r.address [ none ↦ none | some a ↦ some (some (new_direct a)) ]
      ]
