-- ===== src/DistributedMutex/Contention.antt =====
-- Two nodes that request at once.
use bingle_rust.Base.{ℕ, ◌≡◌, ◌≢◌, ◌⊎◌, inl, inr, false, some, [], ◌∷◌, arith, Bool-cases}
use bingle_rust.Base.Str.{cmp-eq_iff, cmp-swap}
use bingle_rust.DistributedMutex.{MutexRequest, InnerState, Node, handle_request, grant_now}
use bingle_rust.DistributedMutex.Requests.{grants, IsLeased, handle_request_lem}

-- When two nodes are requesting, neither of them in its critical section or with a lease of a third
-- node running, and each receives the other's request, then exactly one of them grants it.
pub handle_request-exactly_one :
    (a b : Node) (sa sb : InnerState) (req_a req_b : MutexRequest) (now_a now_b : ℕ)
    → a.self_id ≢ b.self_id
    → sa.current_request_ts ≡ some req_a.lamport_timestamp
    → sb.current_request_ts ≡ some req_b.lamport_timestamp
    → sa.in_cs ≡ false
    → sb.in_cs ≡ false
    → (IsLeased b.self_id now_a sa → ⊥)
    → (IsLeased a.self_id now_b sb → ⊥)
    → let at_a = grants (handle_request a b.self_id req_b now_a sa).1 in
      let at_b = grants (handle_request b a.self_id req_a now_b sb).1 in
      ((at_b ≡ a.self_id ∷ []) × (at_a ≡ [])) ⊎ ((at_b ≡ []) × (at_a ≡ b.self_id ∷ []))
unfolding grant_now
handle_request-exactly_one a b sa sb req_a req_b now_a now_b apart ra rb oa ob fa fb =
    let ta = req_a.lamport_timestamp in
    let tb = req_b.lamport_timestamp in
    let on_a = handle_request_lem a b.self_id req_b now_a sa in
    let on_b = handle_request_lem b a.self_id req_a now_b sb in
    let swapped = cmp-swap a.self_id b.self_id in
    elim (Bool-cases (grant_now b.self_id ta a.self_id (some tb))) [
      | inl e ↦ inl (
        (on_b.1 ob fb (λ h. ground (arith, h.1, h.2))).0,
        (on_a.0 (inr (inr (ta, ra, ground arith)))).0,
      )
      | inr e ↦ inr (
        (on_b.0 (inr (inr (tb, rb, ground arith)))).0,
        (on_a.1 oa fa (λ h. ground (arith, h.1, h.2, cmp-eq_iff a.self_id b.self_id))).0,
      )
    ]
