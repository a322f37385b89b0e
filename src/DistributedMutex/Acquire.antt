-- ===== src/DistributedMutex/Acquire.antt =====
-- `acquire`: the request, the wait with its retries, the entry, and the release; and
-- `broadcast_request` with the pruning of members that cannot be reached.
use bingle_rust.Base.{
  ℕ, ◌+◌, leb, Bool, true, false, not, Option, none, some, List, [], ◌∷◌, ◌++◌, map, retain, length,
  if◌then◌else◌,
}
use bingle_rust.Base.Eq.{◌=?◌, nat_eq, pair_eq}
use bingle_rust.Base.Sets.{add, discard}
use bingle_rust.Base.Str.{Str, str_eq}
use bingle_rust.DistributedMutex.{
  MutexRequest, MutexResponse, MutexRelease, Sent, request_to, InnerState, Node, next_ts, others,
  holds, grant_next, grant_message, broadcast_release, handle_request, handle_reply, handle_release,
}

unfoldable pub required_acks : InnerState → ℕ
required_acks st = length st.dynamic_node_ids

-- One node that could not be reached.
unfoldable pub prune : Str → InnerState → InnerState
prune id st = record st {
  dynamic_node_ids = discard id st.dynamic_node_ids;
  deferred = retain (λ (p : ℕ × Str). not (p.1 =? id)) st.deferred;
  last_holder = if holds id st.last_holder then none else st.last_holder;
}

unfoldable pub prune_unreachable : List Str → InnerState → InnerState
prune_unreachable [] st = st
prune_unreachable (id ∷ ids) st = prune_unreachable ids (prune id st)

-- `delivered` says which sends succeed.
unfoldable pub broadcast_request : Node → (Str → Bool) → ℕ → InnerState → InnerState × List Sent
broadcast_request node delivered ts st =
    let ids = others node st in
    (
      prune_unreachable (retain (λ id. not (delivered id)) ids) st,
      map
          (λ id.
            request_to id
              (record { lamport_timestamp = ts; tag = none; known_ids = some st.dynamic_node_ids }))
          ids,
    )

-- The start of a request cycle: the state and the timestamp of the request.
unfoldable pub begin_request : Node → InnerState → InnerState × ℕ
begin_request node st =
    let ts = next_ts st.lamport in
    (record st { lamport = ts; current_request_ts = some ts; acks = add node.self_id [] }, ts)

-- We granted our vote to no other node whose lease still runs.
unfoldable pub can_enter : Node → ℕ → Option (Str × (ℕ × ℕ)) → Bool
can_enter node now none = true
can_enter node now (some (holder, (ts, deadline))) =
    if holder =? node.self_id then true else leb deadline now

-- The test of the loop, the same before and after the wait; `none` is another wait.
unfoldable pub try_enter : Node → ℕ → ℕ → ℕ → InnerState → Option InnerState
unfolding required_acks can_enter
try_enter node ts now now2 st =
    if leb (required_acks st) (length st.acks)
    then if can_enter node now st.last_holder
      then some (record st {
        in_cs = true;
        last_holder = some (node.self_id, (ts, now2 + node.lease_duration));
      })
      else none
    else none

-- The release after the critical section.
unfoldable pub leave : Node → ℕ → InnerState → InnerState × List Sent
leave node now st =
    let (next_state, next) = grant_next node now st in
    let freed = record next_state {
      last_holder = elim next [ none ↦ none | some _ ↦ next_state.last_holder ];
      in_cs = false;
      current_request_ts = none;
      acks = [];
    } in
    (freed, grant_message next freed ++ broadcast_release node freed)

-- A message that the node receives, with the reading of its clock.
pub data Received : Type 0 where
  request_from : Str → MutexRequest → ℕ → Received
  reply_from : Str → MutexResponse → Received
  release_from : Str → MutexRelease → ℕ → Received

unfoldable pub receive : Node → Received → InnerState → InnerState × List Sent
receive node (request_from id req now) st = handle_request node id req now st
receive node (reply_from id resp) st = handle_reply node id resp st
receive node (release_from id rel now) st = handle_release node id rel now st

unfoldable pub receive_all : Node → List Received → InnerState → InnerState × List Sent
receive_all node [] st = (st, [])
receive_all node (r ∷ rs) st =
    let (st1, sent1) = receive node r st in
    let (st2, sent2) = receive_all node rs st1 in (st2, sent1 ++ sent2)

-- One round of the loop of `acquire`: the messages that come before it takes the lock, the clock at
-- the first test and at the lease that it starts, the messages during the wait, the clock at the
-- second test and its lease, and which sends of the request that is sent again succeed.
pub record Round : Type 0 where
  pub before : List Received
  pub now : ℕ
  pub leased : ℕ
  pub waiting : List Received
  pub woken : ℕ
  pub woken_leased : ℕ
  pub delivered : Str → Bool

-- The loop, over the rounds that it takes; `none` is the state of one that still waits after them.
unfoldable pub wait_rounds : Node → ℕ → List Round → InnerState → (Bool × InnerState) × List Sent
wait_rounds node ts [] st = ((false, st), [])
wait_rounds node ts (round ∷ rounds) st =
    let (st1, sent1) = receive_all node round.before st in
    elim (try_enter node ts round.now round.leased st1) [
      | some entered ↦ ((true, entered), sent1)
      | none ↦
          let (st2, sent2) = receive_all node round.waiting st1 in
          elim (try_enter node ts round.woken round.woken_leased st2) [
            | some entered ↦ ((true, entered), sent1 ++ sent2)
            | none ↦
                let (st3, sent3) = broadcast_request node round.delivered ts st2 in
                let (outcome, later) = wait_rounds node ts rounds st3 in
                (outcome, sent1 ++ sent2 ++ sent3 ++ later)
          ]
    ]

-- `acquire` up to the entry: whether it enters within the rounds, the state, and what is sent.
unfoldable pub acquire_entry :
    Node → (Str → Bool) → List Round → InnerState → (Bool × InnerState) × List Sent
acquire_entry node delivered rounds st =
    let (begun, ts) = begin_request node st in
    let (asked, sent) = broadcast_request node delivered ts begun in
    let (outcome, later) = wait_rounds node ts rounds asked in (outcome, sent ++ later)
