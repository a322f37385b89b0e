-- ===== src/DistributedMutex/Entry.antt =====
-- Who has granted when `acquire` enters.
use bingle_rust.Base.{
  ℕ, ◌+◌, ◌≡◌, ◌⊎◌, inl, inr, refl, ap, sym, subst, Bool, true, not, some, List, [], ◌∷◌, retain,
  length, leb, All, arith, Bool-cases, Option-cases,
}
use bingle_rust.Base.Eq.{option_eq}
use bingle_rust.Base.Sets.{contains, add, distinct, contains_all}
use bingle_rust.Base.Str.{Str, str_eq, str_beq_iff}
use bingle_rust.DistributedMutex.{InnerState, Node, others}
use bingle_rust.DistributedMutex.Acquire.{
  receive_all, begin_request, broadcast_request, prune_unreachable, try_enter, required_acks,
  can_enter, Round, wait_rounds, acquire_entry,
}
use bingle_rust.DistributedMutex.Counted.{Granting, IsCounted, receive_all-IsCounted}

-- The members are a set with the node itself in it.
pub record IsWell (node : Node) (st : InnerState) : Type 0 where
  pub members_distinct : distinct st.dynamic_node_ids ≡ true
  pub self_member : contains st.dynamic_node_ids node.self_id ≡ true

-- Every send succeeds.
abbrev pub AllDelivered : (Str → Bool) → Type 0
AllDelivered delivered = (id : Str) → delivered id ≡ true

module _ (P : Str → Type 0) where
  -- Of a round: its replies are such, and the request that is sent again reaches every node.
  abbrev pub GrantingRound : Round → Type 0
  GrantingRound round =
      All (Granting P) round.before
      × (All (Granting P) round.waiting × AllDelivered round.delivered)

  module _ (node : Node) where
    unreached :
        (delivered : Str → Bool) (ids : List Str)
        → AllDelivered delivered
        → retain (λ id. not (delivered id)) ids ≡ []
    unfolding retain
    unreached delivered [] d = refl
    unreached delivered (id ∷ ids) d = ground (arith, d id, unreached delivered ids d)

    -- No member is lost where every send succeeds.
    broadcast_request_all :
        (delivered : Str → Bool) (ts : ℕ) (st : InnerState)
        → AllDelivered delivered
        → (broadcast_request node delivered ts st).0 ≡ st
    unfolding broadcast_request prune_unreachable
    broadcast_request_all delivered ts st d =
        ap (λ ids. prune_unreachable ids st) (unreached delivered (others node st) d)

    -- A state in which `acquire` has entered.
    abbrev pub Entered : InnerState → Type 0
    Entered st =
        (st.in_cs ≡ true)
        × ((ts deadline : ℕ) × (st.last_holder ≡ some (node.self_id, (ts, deadline))))
        × ((id : Str) → contains st.dynamic_node_ids id ≡ true → (id ≡ node.self_id) ⊎ P id)

    try_enter-Entered :
        (ts now now2 : ℕ) (st t : InnerState)
        → IsCounted P node st
        → try_enter node ts now now2 st ≡ some t
        → Entered t
    unfolding try_enter required_acks
    try_enter-Entered ts now now2 st t c e =
        elim (Bool-cases (leb (length st.dynamic_node_ids) (length st.acks))) [
          | inr few ↦ absurd (ground arith)
          | inl enough ↦ elim (Bool-cases (can_enter node now st.last_holder)) [
            | inr kept ↦ absurd (ground arith)
            | inl free ↦
                let all =
                  contains_all st.acks st.dynamic_node_ids c.acks_distinct c.members_distinct
                    c.acks_members (ground arith) in
                let members : t.dynamic_node_ids ≡ st.dynamic_node_ids = ground arith in
                (
                  ground arith,
                  (ts, now2 + node.lease_duration, ground arith),
                  λ id h. c.acks_granted id (all id (rw (← members) h)),
                )
          ]
        ]

    wait_rounds-Entered :
        (ts : ℕ) (rounds : List Round) (st : InnerState)
        → All GrantingRound rounds
        → IsCounted P node st
        → (wait_rounds node ts rounds st).0.0 ≡ true
        → Entered (wait_rounds node ts rounds st).0.1
    unfolding wait_rounds
    wait_rounds-Entered ts [] st g c e = absurd (ground arith)
    wait_rounds-Entered ts (round ∷ rounds) st g c e =
        let st1 = (receive_all node round.before st).0 in
        let c1 = receive_all-IsCounted P node round.before st g.0.0 c in
        let st2 = (receive_all node round.waiting st1).0 in
        let c2 = receive_all-IsCounted P node round.waiting st1 g.0.1.0 c1 in
        let st3 = (broadcast_request node round.delivered ts st2).0 in
        let same = broadcast_request_all round.delivered ts st2 g.0.1.1 in
        let out = wait_rounds node ts (round ∷ rounds) st in
        elim (Option-cases (try_enter node ts round.now round.leased st1)) [
          | inr (entered, f) ↦
              let at : out.0.1 ≡ entered = ground arith in
              subst Entered (sym at) (try_enter-Entered ts round.now round.leased st1 entered c1 f)
          | inl f ↦ elim (Option-cases (try_enter node ts round.woken round.woken_leased st2)) [
            | inr (entered, f2) ↦
                let at : out.0.1 ≡ entered = ground arith in
                subst Entered (sym at)
                  (try_enter-Entered ts round.woken round.woken_leased st2 entered c2 f2)
            | inl f2 ↦
                let rest : out.0 ≡ (wait_rounds node ts rounds st3).0 = ground arith in
                let here : (wait_rounds node ts rounds st3).0.0 ≡ true = ground arith in
                let at : out.0.1 ≡ (wait_rounds node ts rounds st3).0.1 = ground arith in
                subst Entered (sym at) (
                  wait_rounds-Entered ts rounds st3 g.1 (subst (IsCounted P node) (sym same) c2)
                    here)
          ]
        ]

    begin_request-IsCounted :
        (st : InnerState) → IsWell node st → IsCounted P node (begin_request node st).0
    unfolding begin_request add contains distinct
    begin_request-IsCounted st w = record {
      members_distinct = w.members_distinct;
      acks_distinct = refl;
      acks_members = λ id h. ground (arith, w.self_member, str_beq_iff node.self_id id);
      acks_granted = λ id h. inl (ground (arith, str_beq_iff node.self_id id));
    }

    -- If every send of the request succeeds, and a predicate holds of each node from which a reply
    -- that is a grant comes, then, when acquire enters, the node is in the critical section with a
    -- lease of its own, and the predicate holds of every other member that it knows then.
    pub acquire_entry-every_grant :
        (delivered : Str → Bool) (rounds : List Round) (st : InnerState)
        → IsWell node st
        → AllDelivered delivered
        → All GrantingRound rounds
        → (acquire_entry node delivered rounds st).0.0 ≡ true
        → Entered (acquire_entry node delivered rounds st).0.1
    unfolding acquire_entry
    acquire_entry-every_grant delivered rounds st w d g e =
        let begun = begin_request node st in
        let same = broadcast_request_all delivered begun.1 begun.0 d in
        wait_rounds-Entered begun.1 rounds (broadcast_request node delivered begun.1 begun.0).0 g
          (subst (IsCounted P node) (sym same) (begin_request-IsCounted st w)) e
