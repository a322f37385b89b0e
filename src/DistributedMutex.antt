-- ===== src/DistributedMutex.antt =====
-- bingle_core/src/distributed_mutex/mod.rs: the lock of a node that requests and grants by Lamport
-- timestamps. A timestamp is an i64, held as its distance from -2^63, so the order is that of ℕ and
-- adding one wraps at 2^64. Every function below is what runs under the lock of `inner`, with the
-- messages that are sent once it is given back; `now` and `now2` are readings of the clock.
pub mod Acquire
pub mod Requests
pub mod Contention
pub mod History
pub mod Releases
pub mod Clock
pub mod Members
pub mod Counted
pub mod Entry
mod Examples
use bingle_rust.Base.{
  ℕ, ◌+◌, ◌%◌, ◌^◌, max, Bool, true, false, not, Option, none, some, List, [], ◌∷◌, ◌++◌, map,
  retain, ltb, ◌==◌, if◌then◌else◌,
}
use Prim.Native.Nat.{compare, Ordering}
use bingle_rust.Base.Eq.{◌=?◌, nat_eq, option_eq, pair_eq}
use bingle_rust.Base.Sets.{contains, add, discard}
use bingle_rust.Base.Str.{Str, str_eq, cmp}

pub record MutexRequest : Type 0 where
  pub lamport_timestamp : ℕ
  pub tag : Option Str
  pub known_ids : Option (List Str)

pub record MutexResponse : Type 0 where
  pub response_tag : Option Str
  pub known_ids : Option (List Str)

pub record MutexRelease : Type 0 where
  pub tag : Option Str
  pub known_ids : Option (List Str)

-- A message given to one of the three send closures, and to whom.
pub data Sent : Type 0 where
  request_to : Str → MutexRequest → Sent
  reply_to : Str → MutexResponse → Sent
  release_to : Str → MutexRelease → Sent

-- "membership_only".
abbrev pub membership_only : Str
membership_only =
    b'm' ∷ b'e' ∷ b'm' ∷ b'b' ∷ b'e' ∷ b'r' ∷ b's' ∷ b'h' ∷ b'i' ∷ b'p' ∷ b'_' ∷ b'o' ∷ b'n' ∷ b'l'
    ∷ b'y' ∷ []

-- `deferred` is a `BTreeSet`: sorted, without repetition. The last holder is an id, the timestamp of
-- its request, and the deadline of its lease.
pub record InnerState : Type 0 where
  pub lamport : ℕ
  pub current_request_ts : Option ℕ
  pub acks : List Str
  pub deferred : List (ℕ × Str)
  pub last_holder : Option (Str × (ℕ × ℕ))
  pub in_cs : Bool
  pub dynamic_node_ids : List Str

-- The fields of `ModifiedLamportDistributedMutex` that never change.
pub record Node : Type 0 where
  pub self_id : Str
  pub lease_duration : ℕ

abbrev pub zero_ts : ℕ
zero_ts = 2 ^ 63

abbrev pub next_ts : ℕ → ℕ
next_ts t = (t + 1) % 2 ^ 64

unfoldable pub all_of : List Str → List Str
all_of [] = []
all_of (id ∷ ids) = add id (all_of ids)

unfoldable pub new : Str → List Str → InnerState
unfolding all_of
new self_id node_ids = record {
  lamport = zero_ts;
  current_request_ts = none;
  acks = [];
  deferred = [];
  last_holder = none;
  in_cs = false;
  dynamic_node_ids = add self_id (all_of node_ids);
}

-- One id of `update_membership`: the members, and whether there is a new one.
unfoldable pub add_member : Str → List Str × Bool → List Str × Bool
add_member id (members, changed) =
    if contains members id then (members, changed) else (add id members, true)

unfoldable pub add_members : List Str → List Str × Bool → List Str × Bool
add_members [] members = members
add_members (id ∷ ids) members = add_members ids (add_member id members)

unfoldable pub update_membership : Str → Option (List Str) → InnerState → InnerState × Bool
update_membership from_id known_ids st =
    let known : List Str = elim known_ids [ none ↦ [] | some ids ↦ ids ] in
    let grown = add_members known (add_member from_id (st.dynamic_node_ids, false)) in
    (record st { dynamic_node_ids = grown.0 }, grown.1)

-- The order of `BTreeSet<(i64, String)>`.
unfoldable pub cmp_entry : ℕ × Str → ℕ × Str → Ordering
cmp_entry (t, id) (u, jd) = elim (compare t u) [
  | Ordering.lt ↦ Ordering.lt
  | Ordering.eq ↦ cmp id jd
  | Ordering.gt ↦ Ordering.gt
]

unfoldable pub defer : ℕ × Str → List (ℕ × Str) → List (ℕ × Str)
defer p [] = p ∷ []
defer p (q ∷ qs) =
    let rest = defer p qs in
    elim (cmp_entry p q) [
      | Ordering.lt ↦ p ∷ q ∷ qs
      | Ordering.eq ↦ q ∷ qs
      | Ordering.gt ↦ q ∷ rest
    ]

-- Another node holds our grant and its lease runs.
unfoldable pub leased_to_other : Str → ℕ → Option (Str × (ℕ × ℕ)) → Bool
leased_to_other id now none = false
leased_to_other id now (some (holder, (ts, deadline))) =
    if holder =? id then false else ltb now deadline

-- `grant_now`: a request yields to our own unless it is earlier.
unfoldable pub grant_now : Str → ℕ → Str → Option ℕ → Bool
grant_now self_id ts from_id none = true
grant_now self_id ts from_id (some my_ts) = elim (compare ts my_ts) [
  | Ordering.lt ↦ true
  | Ordering.eq ↦ elim (cmp from_id self_id) [ Ordering.lt ↦ true | _ ↦ false ]
  | Ordering.gt ↦ false
]

-- A retry of the request that is already granted keeps its deadline.
unfoldable pub granted_until : Str → ℕ → ℕ → Option (Str × (ℕ × ℕ)) → ℕ
granted_until from_id ts fresh none = fresh
granted_until from_id ts fresh (some (holder, (held_ts, deadline))) =
    if holder =? from_id then if held_ts == ts then deadline else fresh else fresh

-- The messages to every other member.
unfoldable pub others : Node → InnerState → List Str
others node st = retain (λ id. not (id =? node.self_id)) st.dynamic_node_ids

unfoldable pub broadcast_membership : Node → InnerState → List Sent
unfolding others
broadcast_membership node st =
    map
      (λ id.
        reply_to id
          (record { response_tag = some membership_only; known_ids = some st.dynamic_node_ids }))
      (others node st)

unfoldable pub broadcast_release : Node → InnerState → List Sent
unfolding others
broadcast_release node st =
    map (λ id. release_to id (record { tag = none; known_ids = some st.dynamic_node_ids }))
      (others node st)

-- A grant: a reply without a tag.
abbrev pub grant_to : Str → InnerState → Sent
grant_to id st = reply_to id (record { response_tag = none; known_ids = some st.dynamic_node_ids })

-- The middle of `handle_request`: the state, and whether a reply is sent.
unfoldable pub decide : Node → Str → ℕ → ℕ → InnerState → InnerState × Bool
decide node from_id ts now st =
    let deferring = record st { deferred = defer (ts, from_id) st.deferred } in
    if st.in_cs
    then (deferring, false)
    else if leased_to_other from_id now st.last_holder
    then (deferring, false)
    else if grant_now node.self_id ts from_id st.current_request_ts
    then (
      record st {
        last_holder =
            some
              (from_id, (ts, granted_until from_id ts (now + node.lease_duration) st.last_holder));
        deferred = retain (λ (p : ℕ × Str). not (p.1 =? from_id)) st.deferred;
      },
      true,
    )
    else (deferring, false)

unfoldable pub handle_request : Node → Str → MutexRequest → ℕ → InnerState → InnerState × List Sent
handle_request node from_id req now st =
    let ticked = record st { lamport = next_ts (max st.lamport req.lamport_timestamp) } in
    let (known, changed) = update_membership from_id req.known_ids ticked in
    let (decided, reply) = decide node from_id req.lamport_timestamp now known in
    (
      decided,
      (if changed then broadcast_membership node decided else [])
          ++ (if reply then grant_to from_id decided ∷ [] else []),
    )

unfoldable pub requesting : InnerState → Bool
requesting st = elim st.current_request_ts [ none ↦ false | some _ ↦ true ]

unfoldable pub handle_reply : Node → Str → MutexResponse → InnerState → InnerState × List Sent
unfolding requesting
handle_reply node from_id resp st =
    let (known, changed) = update_membership from_id resp.known_ids st in
    let counts =
      if requesting known then not (resp.response_tag =? some membership_only) else false in
    let acked = if counts then record known { acks = add from_id known.acks } else known in
    (acked, if changed then broadcast_membership node acked else [])

-- The grant to the earliest request that was put off, if there is one.
unfoldable pub grant_next : Node → ℕ → InnerState → InnerState × Option Str
grant_next node now st = elim st.deferred [
  | [] ↦ (st, none)
  | (ts, id) ∷ later ↦ (
    record st { deferred = later; last_holder = some (id, (ts, now + node.lease_duration)) },
    some id,
  )
]

abbrev pub grant_message : Option Str → InnerState → List Sent
grant_message none st = []
grant_message (some id) st = grant_to id st ∷ []

unfoldable pub holds : Str → Option (Str × (ℕ × ℕ)) → Bool
holds id none = false
holds id (some (holder, _)) = holder =? id

unfoldable pub handle_release : Node → Str → MutexRelease → ℕ → InnerState → InnerState × List Sent
unfolding holds
handle_release node from_id rel now st =
    let (known, changed) = update_membership from_id rel.known_ids st in
    let freed =
      if holds from_id known.last_holder then record known { last_holder = none } else known in
    let (granted, next) = grant_next node now freed in
    (
      granted,
      (if changed then broadcast_membership node granted else []) ++ grant_message next granted,
    )
