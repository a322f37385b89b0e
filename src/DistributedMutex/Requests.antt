-- ===== src/DistributedMutex/Requests.antt =====
-- Which requests `handle_request` grants, and which it puts off.
use bingle_rust.Base.{
  ℕ, ◌+◌, ◌<◌, ◌≡◌, ◌≢◌, ◌↔◌, ◌⊎◌, max, refl, ap, sym, ◌∙◌, Bool, true, false, not, Option, none,
  some, List, [], ◌∷◌, ◌++◌, map, retain, if◌then◌else◌, arith,
}
use mathlib.Core.List.{append_assoc}
use Prim.Native.Nat.{Ordering}
use bingle_rust.Base.Eq.{◌=?◌, nat_eq, option_eq, pair_eq, pair_beq_iff}
use bingle_rust.Base.Sets.{contains}
use bingle_rust.Base.Str.{Str, str_eq, str_beq_iff, cmp, cmp-eq_iff}
use bingle_rust.DistributedMutex.{
  MutexRequest, Sent, request_to, reply_to, release_to, InnerState, Node, update_membership,
  add_member, add_members, next_ts, broadcast_membership, decide, handle_request, cmp_entry, defer,
  leased_to_other, grant_now, granted_until, grant_to,
}

-- The nodes to which a grant is sent: a reply without a tag.
unfoldable pub granted_by : Sent → List Str
granted_by (reply_to id resp) = elim resp.response_tag [ none ↦ id ∷ [] | some _ ↦ [] ]
granted_by (request_to id req) = []
granted_by (release_to id rel) = []

unfoldable pub grants : List Sent → List Str
unfolding granted_by
grants [] = []
grants (s ∷ sent) = granted_by s ++ grants sent

-- A lease of another node runs.
abbrev pub IsLeased : Str → ℕ → InnerState → Type 0
IsLeased id now st =
    (holder : Str) × (ts : ℕ) × (deadline : ℕ) × (st.last_holder ≡ some (holder, (ts, deadline)))
    × (holder ≢ id)
    × (now < deadline)

-- We are requesting, and our request comes no later.
abbrev pub IsBehind : Str → Str → ℕ → InnerState → Type 0
IsBehind self_id id ts st =
    (my_ts : ℕ) × (st.current_request_ts ≡ some my_ts)
    × ((my_ts < ts) ⊎ ((my_ts ≡ ts) × (cmp id self_id ≢ Ordering.lt)))

pub grants-append : (xs ys : List Sent) → grants (xs ++ ys) ≡ grants xs ++ grants ys
unfolding grants
grants-append [] ys = refl
grants-append (x ∷ xs) ys =
    ap (λ l. granted_by x ++ l) (grants-append xs ys)
    ∙ sym (append_assoc (granted_by x) (grants xs) (grants ys))

tagged :
    (ids known : List Str) (tag : Str)
    → grants
        (map (λ id. reply_to id (record { response_tag = some tag; known_ids = some known })) ids)
      ≡ []
unfolding grants
tagged [] known tag = refl
tagged (id ∷ ids) known tag = tagged ids known tag

pub grants-broadcast_membership :
    (node : Node) (st : InnerState) → grants (broadcast_membership node st) ≡ []
unfolding broadcast_membership
grants-broadcast_membership node st = tagged _ st.dynamic_node_ids _

-- Once the membership messages are left out.
pub grants_after_membership :
    (b : Bool) (node : Node) (st : InnerState) (sent : List Sent)
    → grants ((if b then broadcast_membership node st else []) ++ sent) ≡ grants sent
grants_after_membership true node st sent =
    grants-append (broadcast_membership node st) sent
    ∙ ap (λ l. l ++ grants sent) (grants-broadcast_membership node st)
grants_after_membership false node st sent = refl

contains-defer : (p : ℕ × Str) (qs : List (ℕ × Str)) → contains (defer p qs) p ≡ true
unfolding contains defer cmp_entry
contains-defer p [] = ground (arith, pair_beq_iff p p)
contains-defer p (q ∷ qs) =
    ground (arith, pair_beq_iff p p, pair_beq_iff q p, contains-defer p qs, cmp-eq_iff p.1 q.1)

contains-retain :
    (id : Str) (ts : ℕ) (qs : List (ℕ × Str))
    → contains (retain (λ (p : ℕ × Str). not (p.1 =? id)) qs) (ts, id) ≡ false
unfolding contains retain
contains-retain id ts [] = refl
contains-retain id ts (q ∷ qs) =
    ground (arith, pair_beq_iff q (ts, id), str_beq_iff q.1 id, contains-retain id ts qs)

leased_test :
    (id : Str) (now : ℕ) (h : Option (Str × (ℕ × ℕ)))
    → (leased_to_other id now h ≡ true) ↔ (
        (holder : Str) × (ts : ℕ) × (deadline : ℕ) × (h ≡ some (holder, (ts, deadline)))
        × (holder ≢ id)
        × (now < deadline))
unfolding leased_to_other
leased_test id now none = (λ e. absurd (ground arith), λ r. absurd (ground (arith, r.3)))
leased_test id now (some (holder, (ts, deadline))) = (
  (λ e. (
    holder,
    ts,
    deadline,
    refl,
    ground (arith, str_beq_iff holder id),
    ground (arith, str_beq_iff holder id),
  )),
  (λ r. ground (arith, r.3, r.4, r.5, str_beq_iff r.0 id)),
)

behind_test :
    (self_id id : Str) (ts : ℕ) (c : Option ℕ)
    → (grant_now self_id ts id c ≡ false) ↔ (
        (my_ts : ℕ) × (c ≡ some my_ts)
        × ((my_ts < ts) ⊎ ((my_ts ≡ ts) × (cmp id self_id ≢ Ordering.lt))))
unfolding grant_now
behind_test self_id id ts none = (λ e. absurd (ground arith), λ r. absurd (ground (arith, r.1)))
behind_test self_id id ts (some my_ts) =
    ((λ e. (my_ts, refl, ground arith)), (λ r. ground (arith, r.1, r.2)))

module _ (node : Node) (id : Str) (ts now : ℕ) (st : InnerState) where
  decide_puts_off :
      (st.in_cs ≡ true) ⊎ (IsLeased id now st ⊎ IsBehind node.self_id id ts st)
      → decide node id ts now st ≡ (record st { deferred = defer (ts, id) st.deferred }, false)
  unfolding decide
  decide_puts_off h = ground (
    arith,
    leased_test id now st.last_holder,
    behind_test node.self_id id ts st.current_request_ts,
  )

  decide_grants :
      st.in_cs ≡ false
      → (IsLeased id now st → ⊥)
      → (IsBehind node.self_id id ts st → ⊥)
      → ((decide node id ts now st).1 ≡ true)
        × ((until : ℕ) × ((decide node id ts now st).0.last_holder ≡ some (id, (ts, until))))
        × ((t : ℕ) → contains (decide node id ts now st).0.deferred (t, id) ≡ false)
  unfolding decide
  decide_grants out free ahead =
      let free_test : leased_to_other id now st.last_holder ≡ false =
        ground (arith, leased_test id now st.last_holder) in
      let ahead_test : grant_now node.self_id ts id st.current_request_ts ≡ true =
        ground (arith, behind_test node.self_id id ts st.current_request_ts) in
      (
        ground arith,
        (granted_until id ts (now + node.lease_duration) st.last_holder, ground arith),
        λ t. ground (arith, contains-retain id t st.deferred),
      )

-- A request is put off while the node is in the critical section, while a lease of another node
-- runs, and while the node is requesting and its own request comes no later: no grant is sent, the
-- request joins those put off, and the last holder stays. In every other case a grant is sent to
-- the requester and to no one else, the requester becomes the last holder for that request, and no
-- request of its is left among those put off.
pub handle_request_lem :
    (node : Node) (id : Str) (req : MutexRequest) (now : ℕ) (st : InnerState)
    → let out = handle_request node id req now st in
      let ts = req.lamport_timestamp in
      ((st.in_cs ≡ true) ⊎ (IsLeased id now st ⊎ IsBehind node.self_id id ts st)
        → (grants out.1 ≡ [])
          × (contains out.0.deferred (ts, id) ≡ true)
          × (out.0.last_holder ≡ st.last_holder))
      × (st.in_cs ≡ false
          → (IsLeased id now st → ⊥)
          → (IsBehind node.self_id id ts st → ⊥)
          → (grants out.1 ≡ id ∷ [])
            × ((until : ℕ) × (out.0.last_holder ≡ some (id, (ts, until))))
            × ((t : ℕ) → contains out.0.deferred (t, id) ≡ false))
unfolding handle_request update_membership grants granted_by
handle_request_lem node id req now st =
    let ts = req.lamport_timestamp in
    let known : List Str = elim req.known_ids [ none ↦ [] | some ids ↦ ids ] in
    let grown = add_members known (add_member id (st.dynamic_node_ids, false)) in
    let ticked : InnerState = record st {
      lamport = next_ts (max st.lamport ts);
      dynamic_node_ids = grown.0;
    } in
    let decided = decide node id ts now ticked in
    let sent = grants_after_membership grown.1 node decided.0 in
    (
      (λ h.
          let e = decide_puts_off node id ts now ticked h in
          (
            ground (arith, e, sent []),
            ground (arith, e, contains-defer (ts, id) st.deferred),
            ground (arith, e),
          )),
      (λ out free ahead.
          let e = decide_grants node id ts now ticked out free ahead in
          (ground (arith, e.0, sent (grant_to id decided.0 ∷ [])), e.1, e.2)),
    )
