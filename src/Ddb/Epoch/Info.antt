-- ===== src/Ddb/Epoch/Info.antt =====
-- The ids and endpoints that the database tells (`make_epoch_info` of bingle_core/src/ddb/mod.rs).
use bingle_rust.Base.{
  ℕ, ◌≡◌, inl, inr, refl, sym, ap, subst, ◌∙◌, Option, none, some, List, [], ◌∷◌, map, arith,
  Option-cases, ◌>>=◌,
}
use bingle_rust.Base.Str.{Str, str_eq}
use bingle_rust.Base.Members.{map-In}
use bingle_rust.Base.Order.{In, sort_by-IsOrdered}
use bingle_rust.Ddb.Record.{AdvertRecord, InetSocketAddress}
use bingle_rust.Ddb.{
  InMemoryDdbBackend, ids, advert_id, lookup, with_advert_ttl, all_endpoints, make_epoch_info,
}
use bingle_rust.Ddb.Store.{Change, change_all, IsSound}
use bingle_rust.Ddb.Store.Sound.{change_all-IsSound}
use bingle_rust.Ddb.Epoch.{relays, IsEpoch}
use bingle_rust.Ddb.Epoch.Live.{ids-IsAscending, lookup-id, relays-IsUnique, relays-In}

all_endpoints-some :
    (l : List AdvertRecord) (es : List InetSocketAddress)
    → all_endpoints l ≡ some es
    → map (λ (r : AdvertRecord). r.endpoint) l ≡ map some es
unfolding all_endpoints
all_endpoints-some [] es e =
    let same : [] ≡ es = ground (arith, e) in subst (λ l. [] ≡ map some l) same refl
all_endpoints-some (r ∷ rest) es e = elim (Option-cases r.endpoint) [
  | inl without ↦ absurd (ground (arith, e, without))
  | inr (d, at) ↦ elim (Option-cases (all_endpoints rest)) [
    | inl none_left ↦ absurd (ground (arith, e, at, none_left))
    | inr (ds, found) ↦
        let same : d ∷ ds ≡ es = ground (arith, e, at, found) in
        subst (λ l. (r.endpoint ∷ map (λ (q : AdvertRecord). q.endpoint) rest) ≡ map some l) same
          (rw at (ap (◌∷◌ (some d)) (all_endpoints-some rest ds found)))
  ]
]

all_endpoints-none :
    (l : List AdvertRecord)
    → all_endpoints l ≡ none
    → (r : AdvertRecord) × In r l × (r.endpoint ≡ none)
unfolding all_endpoints
all_endpoints-none [] e = cc
all_endpoints-none (r ∷ rest) e = elim (Option-cases r.endpoint) [
  | inl without ↦ (r, inl refl, without)
  | inr (d, at) ↦
      let none_left : all_endpoints rest ≡ none = ground (arith, e, at) in
      let (q, there, without) = all_endpoints-none rest none_left in (q, inr there, without)
]

none-all_endpoints :
    (l : List AdvertRecord) (r : AdvertRecord) → In r l → r.endpoint ≡ none → all_endpoints l ≡ none
unfolding all_endpoints
none-all_endpoints [] r i e = absurd i
none-all_endpoints (q ∷ rest) r (inl same) e =
    let without : q.endpoint ≡ none = ap (λ (x : AdvertRecord). x.endpoint) same ∙ e in
    rw without refl
none-all_endpoints (q ∷ rest) r (inr there) e =
    let none_left = none-all_endpoints rest r there e in ground (arith, none_left)

none_told : (l : List AdvertRecord) → ids l ≡ [] → all_endpoints l ≡ some []
unfolding all_endpoints
none_told [] e = refl
none_told (r ∷ rest) e = cc

abbrev endpoint_of : InMemoryDdbBackend → ℕ → Str → Option InetSocketAddress
endpoint_of b now id = lookup b now id >>= (λ (r : AdvertRecord). r.endpoint)

map-endpoint_of :
    (b : InMemoryDdbBackend) (now : ℕ) (l : List AdvertRecord)
    → ((r : AdvertRecord) → In r l → lookup b now r.id ≡ some r)
    → map (endpoint_of b now) (ids l) ≡ map (λ (r : AdvertRecord). r.endpoint) l
map-endpoint_of b now [] h = refl
map-endpoint_of b now (r ∷ rest) h =
    rw (h r (inl refl)) (ap (◌∷◌ r.endpoint) (map-endpoint_of b now rest (λ q i. h q (inr i))))

pub IsEpoch-relays :
    (b : InMemoryDdbBackend) (now : ℕ)
    → IsSound b.entries
    → IsEpoch b now (make_epoch_info b now).0 (make_epoch_info b now).1
unfolding make_epoch_info relays
IsEpoch-relays b now h =
    let l = relays b now in
    record {
      ascending = ids-IsAscending l (sort_by-IsOrdered advert_id _) (relays-IsUnique b now h);
      members = λ id. (
        (λ i.
            let (r, there, same) = (map-In advert_id id l).0 i in
            let (found, relay) = (relays-In b now r h).0 there in
            (r, subst (λ x. lookup b now x ≡ some r) same found, relay)),
        (λ found.
            let (r, at, relay) = found in
            let same = lookup-id b now id r h at in
            (map-In advert_id id l).1 (
              r,
              (relays-In b now r h).1 (subst (λ x. lookup b now x ≡ some r) (sym same) at, relay),
              same,
            )),
      );
      aligned = λ es e.
          map-endpoint_of b now l (λ r i. ((relays-In b now r h).0 i).0)
          ∙ all_endpoints-some l es e;
      missing = (
        (λ e.
            let (r, there, without) = all_endpoints-none l e in
            (
              r.id,
              (map-In advert_id r.id l).1 (r, there, refl),
              rw ((relays-In b now r h).0 there).0 without,
            )),
        (λ found.
            let (id, i, without) = found in
            let (r, there, same) = (map-In advert_id id l).0 i in
            none-all_endpoints l r there (
              sym (
                ap (λ o. o >>= (λ (q : AdvertRecord). q.endpoint))
                  ((relays-In b now r h).0 there).0)
              ∙ (ap (endpoint_of b now) same ∙ without))),
      );
      no_relays = none_told l;
    }

-- After any changes of a new database the relays it tells stand in strictly ascending order of
-- their ids, they are exactly those whose lookup shows the advert of a relay, the endpoints told
-- are those of the lookups in the same order, none are told exactly if one of these relays has no
-- endpoint, and the empty list if there is no relay.
pub make_epoch_info-IsEpoch :
    (changes : List Change) (advert_ttl : Option ℕ) (own_id : Option Str) (now : ℕ)
    → let b = change_all changes (record (with_advert_ttl advert_ttl) { own_id = own_id }) in
      IsEpoch b now (make_epoch_info b now).0 (make_epoch_info b now).1
make_epoch_info-IsEpoch changes advert_ttl own_id now =
    let start = record (with_advert_ttl advert_ttl) { own_id = own_id } in
    IsEpoch-relays (change_all changes start) now (change_all-IsSound changes start tt)
