-- ===== src/DistributedMutex/Examples.antt =====
-- The theorems about the distributed mutex at small states, and two runs that break exclusion.
use bingle_rust.Base.{
  ℕ, ◌+◌, ◌<◌, ◌≡◌, ◌≢◌, ◌⊎◌, inl, inr, refl, true, false, none, some, List, [], ◌∷◌, All, retain,
  arith,
}
use bingle_rust.Base.Eq.{nat_eq, pair_eq, option_beq}
use bingle_rust.Base.Sets.{contains, add, distinct, discard}
use bingle_rust.Base.Str.{Str, str_eq, str_beq}
use bingle_rust.DistributedMutex.{
  MutexRequest, MutexResponse, MutexRelease, InnerState, Node, zero_ts, handle_request,
  handle_reply, handle_release, update_membership, add_members, add_member, others, grant_next,
  holds,
}
use bingle_rust.DistributedMutex.Acquire.{
  Received, request_from, reply_from, receive_all, begin_request, try_enter, leave, prune,
  prune_unreachable, receive, broadcast_request, wait_rounds, Round, acquire_entry,
}
use bingle_rust.DistributedMutex.Requests.{grants, IsLeased, IsBehind, handle_request_lem}
use bingle_rust.DistributedMutex.Contention.{handle_request-exactly_one}
use bingle_rust.DistributedMutex.History.{Action, received, begins, Later}
use bingle_rust.DistributedMutex.Releases.{after, handle_release_lem, leave_lem}
use bingle_rust.DistributedMutex.Clock.{AtMost, begin_request-latest}
use bingle_rust.DistributedMutex.Entry.{IsWell, Entered, acquire_entry-every_grant}

abbrev a_id : Str
a_id = b'a' ∷ []

abbrev b_id : Str
b_id = b'b' ∷ []

abbrev c_id : Str
c_id = b'c' ∷ []

abbrev a : Node
a = record { self_id = a_id; lease_duration = 1000 }

abbrev b : Node
b = record { self_id = b_id; lease_duration = 1000 }

abbrev request : ℕ → MutexRequest
request n = record { lamport_timestamp = zero_ts + n; tag = none; known_ids = none }

abbrev release : MutexRelease
release = record { tag = none; known_ids = none }

abbrev grant : MutexResponse
grant = record { response_tag = none; known_ids = none }

-- A node that requests at timestamp 1, of which b and c are members too.
abbrev asking : InnerState
asking = record {
  lamport = zero_ts + 1;
  current_request_ts = some (zero_ts + 1);
  acks = a_id ∷ [];
  deferred = [];
  last_holder = none;
  in_cs = false;
  dynamic_node_ids = a_id ∷ b_id ∷ c_id ∷ [];
}

handle_request_lem_example :
    ((asking.in_cs ≡ true) ⊎ (IsLeased b_id 5 asking ⊎ IsBehind a_id b_id (zero_ts + 2) asking)
      → (grants (handle_request a b_id (request 2) 5 asking).1 ≡ [])
        × (contains (handle_request a b_id (request 2) 5 asking).0.deferred (zero_ts + 2, b_id)
            ≡ true)
        × ((handle_request a b_id (request 2) 5 asking).0.last_holder ≡ none))
    × (asking.in_cs ≡ false
        → (IsLeased b_id 5 asking → ⊥)
        → (IsBehind a_id b_id (zero_ts + 2) asking → ⊥)
        → (grants (handle_request a b_id (request 2) 5 asking).1 ≡ b_id ∷ [])
          × ((until : ℕ) × ((handle_request a b_id (request 2) 5 asking).0.last_holder
                ≡ some (b_id, (zero_ts + 2, until))))
          × ((t : ℕ)
              → contains (handle_request a b_id (request 2) 5 asking).0.deferred (t, b_id) ≡ false))
handle_request_lem_example = handle_request_lem a b_id (request 2) 5 asking

apart : a_id ≢ b_id
apart e = absurd (ground arith)

abbrev asking_b : InnerState
asking_b = asking

handle_request-exactly_one_example :
    ((grants (handle_request b a_id (request 1) 6 asking).1 ≡ a_id ∷ [])
      × (grants (handle_request a b_id (request 1) 5 asking).1 ≡ []))
    ⊎ ((grants (handle_request b a_id (request 1) 6 asking).1 ≡ [])
        × (grants (handle_request a b_id (request 1) 5 asking).1 ≡ b_id ∷ []))
handle_request-exactly_one_example =
    handle_request-exactly_one a b asking asking (request 1) (request 1) 5 6 apart refl refl refl
      refl (λ h. ground (arith, h.3)) (λ h. ground (arith, h.3))

-- Two requests come to a node that is requesting itself.
abbrev two_put_off : List Action
two_put_off =
    begins
    ∷ received (request_from c_id (request 9) 5)
    ∷ received (request_from b_id (request 7) 6)
    ∷ []

handle_release_lem_example :
    ((after a [] two_put_off).deferred ≡ []
      → (grants (handle_release a c_id release 8 (after a [] two_put_off)).1 ≡ [])
        × (((handle_release a c_id release 8 (after a [] two_put_off)).0.last_holder ≡ none)
            ⊎ ((handle_release a c_id release 8 (after a [] two_put_off)).0.last_holder
                ≡ (after a [] two_put_off).last_holder)))
    × ((ts : ℕ) (next : Str) (later : List (ℕ × Str))
        → (after a [] two_put_off).deferred ≡ (ts, next) ∷ later
        → (grants (handle_release a c_id release 8 (after a [] two_put_off)).1 ≡ next ∷ [])
          × ((handle_release a c_id release 8 (after a [] two_put_off)).0.last_holder
              ≡ some (next, (ts, 8 + 1000)))
          × ((handle_release a c_id release 8 (after a [] two_put_off)).0.deferred ≡ later)
          × All (Later (ts, next)) later
          × ((handle_release a c_id release 8 (after a [] two_put_off)).0.in_cs
              ≡ (after a [] two_put_off).in_cs))
handle_release_lem_example = handle_release_lem a [] two_put_off c_id release 8

leave_lem_example :
    ((after a [] two_put_off).deferred ≡ []
      → (grants (leave a 8 (after a [] two_put_off)).1 ≡ [])
        × ((leave a 8 (after a [] two_put_off)).0.last_holder ≡ none))
    × ((ts : ℕ) (next : Str) (later : List (ℕ × Str))
        → (after a [] two_put_off).deferred ≡ (ts, next) ∷ later
        → (grants (leave a 8 (after a [] two_put_off)).1 ≡ next ∷ [])
          × ((leave a 8 (after a [] two_put_off)).0.last_holder ≡ some (next, (ts, 8 + 1000)))
          × ((leave a 8 (after a [] two_put_off)).0.deferred ≡ later)
          × All (Later (ts, next)) later)
    × ((leave a 8 (after a [] two_put_off)).0.in_cs ≡ false)
    × ((leave a 8 (after a [] two_put_off)).0.current_request_ts ≡ none)
    × ((leave a 8 (after a [] two_put_off)).0.acks ≡ [])
leave_lem_example = leave_lem a [] two_put_off 8

abbrev heard : List Received
heard = request_from c_id (request 9) 5 ∷ request_from b_id (request 7) 6 ∷ []

begin_request-latest_example :
    (zero_ts + 1 < (begin_request a (receive_all a heard asking).0).1)
    × ((below : ℕ) × (below < (begin_request a (receive_all a heard asking).0).1)
        × All (AtMost below) heard)
begin_request-latest_example =
    begin_request-latest a heard (zero_ts + 9) asking (omega arith) (omega arith, (omega arith, tt))
      (omega arith)

abbrev IsPeer : Str → Type 0
IsPeer id = (id ≡ b_id) ⊎ (id ≡ c_id)

-- Both other members grant while the node waits.
abbrev granted_round : Round
granted_round = record {
  before = reply_from b_id grant ∷ [];
  now = 10;
  leased = 11;
  waiting = reply_from c_id grant ∷ [];
  woken = 20;
  woken_leased = 21;
  delivered = λ id. true;
}

asking-IsWell : IsWell a asking
unfolding distinct contains str_beq
asking-IsWell = record { members_distinct = refl; self_member = refl }

enters : (acquire_entry a (λ id. true) (granted_round ∷ []) asking).0.0 ≡ true
unfolding acquire_entry distinct contains add wait_rounds try_enter receive_all receive handle_reply
    update_membership broadcast_request prune_unreachable retain others begin_request str_beq
    option_beq add_members add_member
enters = refl

acquire_entry-every_grant_example :
    Entered IsPeer a (acquire_entry a (λ id. true) (granted_round ∷ []) asking).0.1
acquire_entry-every_grant_example =
    acquire_entry-every_grant IsPeer a (λ id. true) (granted_round ∷ []) asking asking-IsWell
      (λ id. refl) (((inr (inl refl), tt), ((inr (inr refl), tt), λ id. refl)), tt) enters

abbrev in_section : InnerState
in_section = record asking {
  in_cs = true;
  last_holder = some (a_id, (zero_ts + 1, 1000));
  deferred = (zero_ts + 2, b_id) ∷ [];
}

-- Inside the critical section, a release from a third node has the node grant another request.
handle_release-in_section :
    (in_section.in_cs ≡ true) × (grants (handle_release a c_id release 8 in_section).1 ≡ b_id ∷ [])
unfolding handle_release grants update_membership add_members add_member contains str_beq grant_next
handle_release-in_section = (refl, refl)

-- The acknowledgement of b is there, that of c is not.
abbrev half_acked : InnerState
half_acked = record asking { acks = a_id ∷ b_id ∷ [] }

abbrev pruned : InnerState
pruned = prune_unreachable (b_id ∷ []) half_acked

-- When b is pruned, its acknowledgement still counts, and the node enters without that of c.
pruned_ack_counts :
    (try_enter a (zero_ts + 1) 9 9 half_acked ≡ none)
    × ((t : InnerState) × (try_enter a (zero_ts + 1) 9 9 pruned ≡ some t)
        × (contains t.dynamic_node_ids c_id ≡ true)
        × (contains t.acks c_id ≡ false))
unfolding try_enter prune_unreachable contains prune discard str_beq holds
pruned_ack_counts = (
  refl,
  (
    record pruned { in_cs = true; last_holder = some (a_id, (zero_ts + 1, 9 + 1000)) },
    refl,
    refl,
    refl,
  ),
)
