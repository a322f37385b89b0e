-- ===== src/DistributedMutex/Releases.antt =====
-- What `handle_release` and the release of `acquire` grant.
use bingle_rust.Base.{
  ℕ, ◌+◌, ◌≡◌, ◌⊎◌, inl, inr, refl, sym, subst, Bool-cases, ◌∙◌, Bool, false, Option, none, some,
  List, [], ◌∷◌, ◌++◌, map, All, if◌then◌else◌, arith,
}
use bingle_rust.Base.Str.{Str, str_eq}
use bingle_rust.DistributedMutex.{
  MutexRelease, release_to, InnerState, Node, new, update_membership, grant_next, grant_message,
  broadcast_release, broadcast_membership, handle_release, holds,
}
use bingle_rust.DistributedMutex.Acquire.{leave}
use bingle_rust.DistributedMutex.Requests.{grants, granted_by, grants_after_membership}
use bingle_rust.DistributedMutex.History.{Action, act_all, act_all-IsSorted, IsSorted, Later}

released :
    (ids known : List Str)
    → grants (map (λ id. release_to id (record { tag = none; known_ids = some known })) ids) ≡ []
unfolding grants granted_by
released [] known = refl
released (id ∷ ids) known = released ids known

grants-broadcast_release : (node : Node) (st : InnerState) → grants (broadcast_release node st) ≡ []
unfolding broadcast_release
grants-broadcast_release node st = released _ st.dynamic_node_ids

IsSorted-new : (self_id : Str) (ids : List Str) → IsSorted (new self_id ids).deferred
unfolding new
IsSorted-new self_id ids = tt

-- A state of the node after any actions.
abbrev pub after : Node → List Str → List Action → InnerState
after node ids xs = act_all node xs (new node.self_id ids)

after-IsSorted :
    (node : Node) (ids : List Str) (xs : List Action) → IsSorted (after node ids xs).deferred
after-IsSorted node ids xs =
    act_all-IsSorted node xs (new node.self_id ids) (IsSorted-new node.self_id ids)

update_membership-fields :
    (id : Str) (known : Option (List Str)) (st : InnerState)
    → ((update_membership id known st).0.deferred ≡ st.deferred)
      × ((update_membership id known st).0.last_holder ≡ st.last_holder)
      × ((update_membership id known st).0.in_cs ≡ st.in_cs)
unfolding update_membership
update_membership-fields id known st = (refl, refl, refl)

-- The grant to the next request, behind the membership messages where there are any.
grant_next_lem :
    (node : Node) (now : ℕ) (b : Bool) (st : InnerState)
    → IsSorted st.deferred
    → let out = grant_next node now st in
      let sent =
        grants ((if b then broadcast_membership node out.0 else []) ++ grant_message out.1 out.0) in
      (st.deferred ≡ [] → (sent ≡ []) × (out.0 ≡ st) × (out.1 ≡ none))
      × ((ts : ℕ) (next : Str) (later : List (ℕ × Str))
          → st.deferred ≡ (ts, next) ∷ later
          → (sent ≡ next ∷ [])
            × (out.0 ≡ record st {
              deferred = later;
              last_holder = some (next, (ts, now + node.lease_duration));
            })
            × (out.1 ≡ some next)
            × All (Later (ts, next)) later)
unfolding grant_next grants granted_by
grant_next_lem node now b st s =
    let out = grant_next node now st in
    let m = grants_after_membership b node out.0 (grant_message out.1 out.0) in
    (
      (λ e. (ground (arith, m), ground arith, ground arith)),
      (λ ts next later e. (ground (arith, m), ground arith, ground arith, (subst IsSorted e s).0)),
    )

-- Whatever a node has done before, on a release from another node it sends at most one grant. If no
-- request is put off there is none, and the last holder is forgotten or stays. Otherwise the grant
-- goes to the first request that is put off, which comes before all others, and which leaves them
-- and becomes the last holder, with a new lease; this also inside the critical section.
pub handle_release_lem :
    (node : Node) (ids : List Str) (xs : List Action) (id : Str) (rel : MutexRelease) (now : ℕ)
    → let st = after node ids xs in
      let out = handle_release node id rel now st in
      (st.deferred ≡ []
        → (grants out.1 ≡ []) × ((out.0.last_holder ≡ none) ⊎ (out.0.last_holder ≡ st.last_holder)))
      × ((ts : ℕ) (next : Str) (later : List (ℕ × Str))
          → st.deferred ≡ (ts, next) ∷ later
          → (grants out.1 ≡ next ∷ [])
            × (out.0.last_holder ≡ some (next, (ts, now + node.lease_duration)))
            × (out.0.deferred ≡ later)
            × All (Later (ts, next)) later
            × (out.0.in_cs ≡ st.in_cs))
unfolding handle_release
handle_release_lem node ids xs id rel now =
    let st = after node ids xs in
    let known = update_membership id rel.known_ids st in
    let same = update_membership-fields id rel.known_ids st in
    let s = subst IsSorted (sym same.0) (after-IsSorted node ids xs) in
    let free : InnerState = record known.0 { last_holder = none } in
    elim (Bool-cases (holds id known.0.last_holder)) [
      | inl e ↦
          let g = grant_next_lem node now known.1 free s in
          (
            (λ none_left.
                let r = g.0 (same.0 ∙ none_left) in
                (ground (arith, r.0), inl (ground (arith, r.1)))),
            (λ ts next later first.
                let r = g.1 ts next later (same.0 ∙ first) in
                (
                  ground (arith, r.0),
                  ground (arith, r.1),
                  ground (arith, r.1),
                  r.3,
                  ground (arith, r.1, same.2),
                )),
          )
      | inr e ↦
          let g = grant_next_lem node now known.1 known.0 s in
          (
            (λ none_left.
                let r = g.0 (same.0 ∙ none_left) in
                (ground (arith, r.0), inr (ground (arith, r.1, same.1)))),
            (λ ts next later first.
                let r = g.1 ts next later (same.0 ∙ first) in
                (
                  ground (arith, r.0),
                  ground (arith, r.1),
                  ground (arith, r.1),
                  r.3,
                  ground (arith, r.1, same.2),
                )),
          )
    ]

-- Whatever a node has done before, when it leaves the critical section it sends at most one grant,
-- to the first request that is put off, which comes before all others and becomes the last holder
-- with a new lease, or to no one if none is put off, and then there is no last holder. The node is
-- out of the critical section, requests no longer, and holds no acknowledgements.
pub leave_lem :
    (node : Node) (ids : List Str) (xs : List Action) (now : ℕ)
    → let st = after node ids xs in
      let out = leave node now st in
      (st.deferred ≡ [] → (grants out.1 ≡ []) × (out.0.last_holder ≡ none))
      × ((ts : ℕ) (next : Str) (later : List (ℕ × Str))
          → st.deferred ≡ (ts, next) ∷ later
          → (grants out.1 ≡ next ∷ [])
            × (out.0.last_holder ≡ some (next, (ts, now + node.lease_duration)))
            × (out.0.deferred ≡ later)
            × All (Later (ts, next)) later)
      × (out.0.in_cs ≡ false)
      × (out.0.current_request_ts ≡ none)
      × (out.0.acks ≡ [])
unfolding leave grant_next grants granted_by
leave_lem node ids xs now =
    let st = after node ids xs in
    let s = after-IsSorted node ids xs in
    let freed = (leave node now st).0 in
    let quiet = grants-broadcast_release node freed in
    (
      (λ e. (ground (arith, quiet), ground arith)),
      (λ ts next later e.
          (ground (arith, quiet), ground arith, ground arith, (subst IsSorted e s).0)),
      ground arith,
      ground arith,
      ground arith,
    )
