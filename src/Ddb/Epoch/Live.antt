-- ===== src/Ddb/Epoch/Live.antt =====
-- The live adverts are what lookups find (bingle_core/src/ddb/mod.rs).
use bingle_rust.Base.{
  ℕ, ◌≡◌, ◌↔◌, inl, inr, refl, sym, ap, subst, ◌∙◌, true, false, not, some, List, [], ◌∷◌, retain,
  arith, Bool-cases,
}
use Prim.Native.Nat.{Ordering}
use bingle_rust.Base.Eq.{◌=?◌}
use bingle_rust.Base.Str.{Str, str_eq, str_beq_iff, cmp, cmp-eq_iff}
use bingle_rust.Base.Map
use bingle_rust.Base.Map.{Map}
use bingle_rust.Base.Members.{retain-In, retain-IsUnique, map-In, map-IsUnique}
use bingle_rust.Base.Order.{In, IsOrdered, IsUnique, sort_by-In, sort_by-IsUnique}
use bingle_rust.Ddb.Record.{AdvertRecord, is_relay_record}
use bingle_rust.Ddb.{
  InMemoryDdbBackend, StoredRecord, values, ids, advert_id, is_expired, live_records, lookup,
}
use bingle_rust.Ddb.Store.{IsSound}
use bingle_rust.Ddb.Epoch.{IsAscending, relays, stored_id}

pub ids-IsAscending :
    (l : List AdvertRecord) → IsOrdered advert_id l → IsUnique advert_id l → IsAscending (ids l)
ids-IsAscending [] o u = tt
ids-IsAscending (r ∷ rest) o u = (
  (λ y i.
      let (q, there, same) = (map-In advert_id y rest).0 i in
      subst (λ x. cmp r.id x ≡ Ordering.lt) same
        (ground (arith, o.0 q there, u.0 q there, cmp-eq_iff r.id q.id))),
  ids-IsAscending rest o.1 u.1,
)

-- A value is what the map has under its id.
values-get :
    (m : Map Str StoredRecord) (s : StoredRecord)
    → IsSound m
    → In s (values m) ↔ (Map.get m s.advert.id ≡ some s)
unfolding Map.get
values-get [] s h = ((λ i. absurd i), (λ e. cc))
values-get ((k, t) ∷ m) s h =
    let rest = values-get m s h.2 in
    (
      (λ i. elim i [
        | inl same ↦
            let own : s.advert.id ≡ k = sym (ap stored_id same) ∙ h.0 in
            rw ((str_beq_iff k s.advert.id).1 (sym own)) (ap some same)
        | inr later ↦ ground (arith, rest.0 later, h.1, str_beq_iff k s.advert.id)
      ]),
      (λ e. elim (Bool-cases (k =? s.advert.id)) [
        | inl same ↦ inl (ground (arith, e, same))
        | inr other ↦ inr (rest.1 (ground (arith, e, other)))
      ]),
    )

values-IsUnique : (m : Map Str StoredRecord) → IsSound m → IsUnique stored_id (values m)
values-IsUnique [] h = tt
values-IsUnique ((k, s) ∷ m) h = (
  (λ q i e. let found = (values-get m q h.2).0 i in ground (arith, found, e, h.0, h.1)),
  values-IsUnique m h.2,
)

get-id :
    (m : Map Str StoredRecord) (id : Str) (s : StoredRecord)
    → IsSound m
    → Map.get m id ≡ some s
    → s.advert.id ≡ id
unfolding Map.get
get-id [] id s h e = cc
get-id ((k, t) ∷ m) id s h e = elim (Bool-cases (k =? id)) [
  | inl same ↦
      let here : t ≡ s = ground (arith, e, same) in
      sym (ap stored_id here) ∙ (h.0 ∙ (str_beq_iff k id).0 same)
  | inr other ↦ get-id m id s h.2 (ground (arith, e, other))
]

-- What a lookup finds stands in the map and is alive.
lookup-stored :
    (b : InMemoryDdbBackend) (now : ℕ) (id : Str) (r : AdvertRecord)
    → lookup b now id ≡ some r
    → (s : StoredRecord) × (Map.get b.entries id ≡ some s)
      × (is_expired b now s ≡ false)
      × (s.advert ≡ r)
unfolding lookup
lookup-stored b now id r e = ground arith

lookup-alive :
    (b : InMemoryDdbBackend) (now : ℕ) (id : Str) (s : StoredRecord)
    → Map.get b.entries id ≡ some s
    → is_expired b now s ≡ false
    → lookup b now id ≡ some s.advert
unfolding lookup
lookup-alive b now id s found lives = ground (arith, found, lives)

-- A live advert is what a lookup of its id finds.
live_records-lookup :
    (b : InMemoryDdbBackend) (now : ℕ) (r : AdvertRecord)
    → IsSound b.entries
    → In r (live_records b now) ↔ (lookup b now r.id ≡ some r)
unfolding live_records lookup
live_records-lookup b now r h =
    let alive = λ (s : StoredRecord). not (is_expired b now s) in
    let content = λ (s : StoredRecord). s.advert in
    (
      (λ i.
          let (s, there, same) = (map-In content r (retain alive (values b.entries))).0 i in
          let (inside, lives) = (retain-In alive s (values b.entries)).0 there in
          let found = (values-get b.entries s h).0 inside in
          subst (λ (a : AdvertRecord). lookup b now a.id ≡ some a) same
            (lookup-alive b now s.advert.id s found (ground (arith, lives)))),
      (λ e.
          let (s, found, lives, same) = lookup-stored b now r.id r e in
          let here =
            subst (λ (a : AdvertRecord). Map.get b.entries a.id ≡ some s) (sym same) found in
          (map-In content r (retain alive (values b.entries))).1 (
            s,
            (retain-In alive s (values b.entries)).1
                ((values-get b.entries s h).1 here, rw lives refl),
            same,
          )),
    )

pub lookup-id :
    (b : InMemoryDdbBackend) (now : ℕ) (id : Str) (r : AdvertRecord)
    → IsSound b.entries
    → lookup b now id ≡ some r
    → r.id ≡ id
lookup-id b now id r h e =
    let (s, found, lives, same) = lookup-stored b now id r e in
    ap advert_id (sym same) ∙ get-id b.entries id s h found

pub relays-IsUnique :
    (b : InMemoryDdbBackend) (now : ℕ) → IsSound b.entries → IsUnique advert_id (relays b now)
unfolding relays live_records
relays-IsUnique b now h =
    let alive = λ (s : StoredRecord). not (is_expired b now s) in
    sort_by-IsUnique advert_id _ (
      retain-IsUnique advert_id is_relay_record _ (
        map-IsUnique (λ (s : StoredRecord). s.advert) advert_id _
          (retain-IsUnique stored_id alive (values b.entries) (values-IsUnique b.entries h))))

pub relays-In :
    (b : InMemoryDdbBackend) (now : ℕ) (r : AdvertRecord)
    → IsSound b.entries
    → In r (relays b now) ↔ ((lookup b now r.id ≡ some r) × (is_relay_record r ≡ true))
unfolding relays
relays-In b now r h =
    let sorted = sort_by-In advert_id r (retain is_relay_record (live_records b now)) in
    let kept = retain-In is_relay_record r (live_records b now) in
    let live = live_records-lookup b now r h in
    (
      (λ i. let (there, relay) = kept.0 (sorted.0 i) in (live.0 there, relay)),
      (λ i. sorted.1 (kept.1 (live.1 i.0, i.1))),
    )
