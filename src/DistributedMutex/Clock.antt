-- ===== src/DistributedMutex/Clock.antt =====
-- The Lamport clock: a request that begins later is later than all requests that were heard.
use bingle_rust.Base.{
  ℕ, ◌+◌, ◌^◌, ◌≤◌, ◌<◌, ◌≡◌, refl, Option, none, List, [], ◌∷◌, length, max, All, arith,
}
use bingle_rust.Base.Str.{Str}
use bingle_rust.DistributedMutex.{
  InnerState, Node, next_ts, update_membership, decide, grant_next, handle_request, handle_reply,
  handle_release,
}
use bingle_rust.DistributedMutex.Acquire.{
  Received, request_from, reply_from, release_from, receive, receive_all, begin_request,
}

-- A request that was received has a timestamp of at most the bound.
abbrev pub AtMost : ℕ → Received → Type 0
AtMost bound (request_from id req now) = req.lamport_timestamp ≤ bound
AtMost bound (reply_from id resp) = Unit {0}
AtMost bound (release_from id rel now) = Unit {0}

AtMost-≤ : (a b : ℕ) (r : Received) → a ≤ b → AtMost a r → AtMost b r
AtMost-≤ a b (request_from id req now) h k = omega arith
AtMost-≤ a b (reply_from id resp) h k = tt
AtMost-≤ a b (release_from id rel now) h k = tt

All-AtMost : (a b : ℕ) (rs : List Received) → a ≤ b → All (AtMost a) rs → All (AtMost b) rs
All-AtMost a b [] h k = tt
All-AtMost a b (r ∷ rs) h k = (AtMost-≤ a b r h k.0, All-AtMost a b rs h k.1)

module _ (node : Node) where
  decide-lamport :
      (id : Str) (ts now : ℕ) (st : InnerState) → (decide node id ts now st).0.lamport ≡ st.lamport
  unfolding decide
  decide-lamport id ts now st = ground arith

  grant_next-lamport : (now : ℕ) (st : InnerState) → (grant_next node now st).0.lamport ≡ st.lamport
  unfolding grant_next
  grant_next-lamport now st = ground arith

  update_membership-lamport :
      (id : Str) (known : Option (List Str)) (st : InnerState)
      → (update_membership id known st).0.lamport ≡ st.lamport
  unfolding update_membership
  update_membership-lamport id known st = refl

  receive-lamport :
      (r : Received) (bound : ℕ) (st : InnerState)
      → st.lamport ≤ bound
      → AtMost bound r
      → bound + 1 < 2 ^ 64
      → (st.lamport ≤ (receive node r st).0.lamport)
        × ((receive node r st).0.lamport ≤ bound + 1)
        × AtMost (receive node r st).0.lamport r
  unfolding receive handle_request handle_reply handle_release
  receive-lamport (request_from id req now) bound st h k small =
      let ticked : InnerState = record st {
        lamport = next_ts (max st.lamport req.lamport_timestamp);
      } in
      ground (
        arith,
        decide-lamport id req.lamport_timestamp now (update_membership id req.known_ids ticked).0,
        update_membership-lamport id req.known_ids ticked,
      )
  receive-lamport (reply_from id resp) bound st h k small =
      ground (arith, update_membership-lamport id resp.known_ids st)
  receive-lamport (release_from id rel now) bound st h k small =
      let known = (update_membership id rel.known_ids st).0 in
      ground (
        arith,
        update_membership-lamport id rel.known_ids st,
        grant_next-lamport now known,
        grant_next-lamport now (record known { last_holder = none }),
      )

  receive_all-lamport :
      (rs : List Received) (bound : ℕ) (st : InnerState)
      → st.lamport ≤ bound
      → All (AtMost bound) rs
      → bound + length rs < 2 ^ 64
      → (st.lamport ≤ (receive_all node rs st).0.lamport)
        × ((receive_all node rs st).0.lamport ≤ bound + length rs)
        × All (AtMost (receive_all node rs st).0.lamport) rs
  unfolding receive_all
  receive_all-lamport [] bound st h k small = (omega arith, omega arith, tt)
  receive_all-lamport (r ∷ rs) bound st h k small =
      let st1 = (receive node r st).0 in
      let one = receive-lamport r bound st h k.0 (omega arith) in
      let rest =
        receive_all-lamport rs (bound + 1) st1 one.1
          (All-AtMost bound (bound + 1) rs (omega arith) k.1) (omega arith) in
      (omega (arith, one.0, rest.0), omega (arith, rest.1), (AtMost-≤ _ _ r rest.0 one.2, rest.2))

  -- Where the clock cannot wrap, the timestamp of a request that begins after messages came is
  -- greater than the clock before them, and than every timestamp of a request among them.
  pub begin_request-latest :
      (rs : List Received) (bound : ℕ) (st : InnerState)
      → st.lamport ≤ bound
      → All (AtMost bound) rs
      → bound + length rs + 1 < 2 ^ 64
      → let ts = (begin_request node (receive_all node rs st).0).1 in
        (st.lamport < ts) × ((below : ℕ) × (below < ts) × All (AtMost below) rs)
  unfolding begin_request
  begin_request-latest rs bound st h k small =
      let all = receive_all-lamport rs bound st h k (omega arith) in
      (
        ground (arith, all.0, all.1),
        ((receive_all node rs st).0.lamport, ground (arith, all.1), all.2),
      )
