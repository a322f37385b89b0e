-- ===== src/Ddb/Evict/Disallowed.antt =====
-- Which relays an eviction removes (`evict_disallowed_relays` of bingle_core/src/ddb/mod.rs).
use bingle_rust.Base.{
  ℕ, ◌≡◌, ◌≢◌, ◌↔◌, refl, sym, ◌∙◌, subst, Bool, true, false, not, Option, none, some, List, [],
  ◌∷◌, retain, if◌then◌else◌, arith, Bool-cases, inl, inr,
}
use bingle_rust.Base.Eq.{◌=?◌}
use bingle_rust.Base.Str.{Str, str_eq, str_beq_iff}
use bingle_rust.Base.Sets.{contains}
use bingle_rust.Base.Map.{get-remove}
use bingle_rust.Base.Order.{In}
use bingle_rust.Base.Members.{retain-In}
use bingle_rust.Base.Lock.{Mutex, write}
use bingle_rust.Ddb.Record.{AdvertRecord, is_relay_record}
use bingle_rust.Ddb.{InMemoryDdbBackend, is_expired, lookup, delete, make_epoch_info}
use bingle_rust.Ddb.Evict.{is_disallowed, relays_to_evict, delete_each, evict_disallowed_relays}
use bingle_rust.Ddb.Store.{IsSound}
use bingle_rust.Ddb.Epoch.Info.{IsEpoch-relays}

-- What an eviction does to a database, and the ids that it returns.
pub record IsEviction (before after : InMemoryDdbBackend) (now : ℕ) (my_id : Str)
    (permission : Str → Option Bool) (evicted : List Str) : Type 0 where
  -- The relays removed are those the database shows that the chain forbids, but for this node.
  pub chosen :
      (id : Str)
      → In id evicted ↔ (
          ((r : AdvertRecord) × (lookup before now id ≡ some r) × (is_relay_record r ≡ true))
          × (id ≢ my_id)
          × (permission id ≡ some false))
  pub gone : (id : Str) (later : ℕ) → In id evicted → lookup after later id ≡ none
  pub kept :
      (id : Str) (later : ℕ) → ¬ In id evicted → lookup after later id ≡ lookup before later id

lookup-delete :
    (b : InMemoryDdbBackend) (later : ℕ) (gone id : Str)
    → lookup (delete gone b) later id ≡ (if gone =? id then none else lookup b later id)
unfolding lookup delete is_expired
lookup-delete b later gone id = ground (arith, get-remove gone id b.entries)

contains-In : (l : List Str) (id : Str) → (contains l id ≡ true) ↔ In id l
unfolding contains
contains-In [] id = ((λ e. cc), (λ i. absurd i))
contains-In (x ∷ xs) id = ground (arith, contains-In xs id, str_beq_iff x id)

lookup-delete_each :
    (l : List Str) (b : InMemoryDdbBackend) (later : ℕ) (id : Str)
    → (In id l → lookup (delete_each l b) later id ≡ none)
      × (¬ In id l → lookup (delete_each l b) later id ≡ lookup b later id)
unfolding delete_each
lookup-delete_each [] b later id = ((λ i. absurd i), (λ n. refl))
lookup-delete_each (x ∷ xs) b later id =
    let (there, absent) = lookup-delete_each xs (delete x b) later id in
    let first = lookup-delete b later x id in
    (
      (λ i. elim i [
        | inr further ↦ there further
        | inl same ↦ elim (Bool-cases (contains xs id)) [
          | inl e ↦ there ((contains-In xs id).0 e)
          | inr e ↦
              absent (λ further. absurd (ground (arith, e, (contains-In xs id).1 further)))
              ∙ ground (arith, first, same, str_beq_iff x id)
        ]
      ]),
      (λ n.
          let other : (x =? id) ≡ false = elim (Bool-cases (x =? id)) [
            | inl e ↦ absurd (n (inl ((str_beq_iff x id).0 e)))
            | inr e ↦ e
          ] in
          absent (λ i. n (inr i)) ∙ (first ∙ rw other refl)),
    )

disallowed_iff : (o : Option Bool) → (is_disallowed o ≡ true) ↔ (o ≡ some false)
unfolding is_disallowed
disallowed_iff o = ground arith

evict_sound :
    (m : Mutex InMemoryDdbBackend) (now : ℕ) (my_id : Str) (permission : Str → Option Bool)
    → m.poisoned ≡ false
    → let evict = relays_to_evict (make_epoch_info m.inner now).0 my_id permission in
      evict_disallowed_relays m now my_id permission ≡ (write m (delete_each evict m.inner), evict)
unfolding evict_disallowed_relays
evict_sound m now my_id permission p = ground (arith, p)

relays_to_evict-IsEviction :
    (b : InMemoryDdbBackend) (now : ℕ) (my_id : Str) (permission : Str → Option Bool)
    → IsSound b.entries
    → let evict = relays_to_evict (make_epoch_info b now).0 my_id permission in
      IsEviction b (delete_each evict b) now my_id permission evict
unfolding relays_to_evict
relays_to_evict-IsEviction b now my_id permission h =
    let shows = IsEpoch-relays b now h in
    let listed = (make_epoch_info b now).0 in
    let apart = λ (id : Str). not (id =? my_id) in
    let forbidden = λ (id : Str). is_disallowed (permission id) in
    record {
      chosen = λ id.
          let outer = retain-In forbidden id (retain apart listed) in
          let inner = retain-In apart id listed in
          (
            (λ i.
                let (within, bad) = outer.0 i in
                let (there, other) = inner.0 within in
                (
                  (shows.members id).0 there,
                  (λ e. ground (arith, other, e, str_beq_iff id my_id)),
                  (disallowed_iff (permission id)).0 bad,
                )),
            (λ i. outer.1 (
              inner.1 ((shows.members id).1 i.0, ground (arith, i.1, str_beq_iff id my_id)),
              (disallowed_iff (permission id)).1 i.2,
            )),
          );
      gone = λ id later. (lookup-delete_each _ b later id).0;
      kept = λ id later. (lookup-delete_each _ b later id).1;
    }

-- On a sound lock and a database that holds each advert once under its id, an eviction returns
-- exactly the relays that lookups show, other than this node, whose permission is known to be
-- withdrawn; lookups show none of them afterwards, at any time, and show everything else as before.
pub evict_disallowed_relays-IsEviction :
    (m : Mutex InMemoryDdbBackend) (now : ℕ) (my_id : Str) (permission : Str → Option Bool)
    → m.poisoned ≡ false
    → IsSound m.inner.entries
    → let result = evict_disallowed_relays m now my_id permission in
      IsEviction m.inner result.0.inner now my_id permission result.1
evict_disallowed_relays-IsEviction m now my_id permission p h =
    subst (λ result. IsEviction m.inner result.0.inner now my_id permission result.1)
      (sym (evict_sound m now my_id permission p))
      (relays_to_evict-IsEviction m.inner now my_id permission h)
