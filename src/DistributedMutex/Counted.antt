-- ===== src/DistributedMutex/Counted.antt =====
-- What the acknowledgements of a requesting node keep to while messages come.
use bingle_rust.Base.{
  ℕ, ◌≡◌, ◌⊎◌, inl, inr, refl, subst, Bool, true, false, not, Option, none, some, List, [], ◌∷◌,
  max, All, if◌then◌else◌, arith, Bool-cases,
}
use bingle_rust.Base.Eq.{◌=?◌, option_eq, option_beq_iff}
use bingle_rust.Base.Sets.{contains, add, distinct, contains-add, distinct-add}
use bingle_rust.Base.Str.{Str, str_eq, str_beq_iff}
use bingle_rust.DistributedMutex.{
  MutexResponse, InnerState, Node, update_membership, decide, grant_next, handle_request,
  handle_reply, handle_release, requesting, holds, next_ts, membership_only,
}
use bingle_rust.DistributedMutex.Acquire.{
  Received, request_from, reply_from, release_from, receive, receive_all,
}
use bingle_rust.DistributedMutex.Members.{update_membership_lem}

module _ (P : Str → Type 0) where
  -- `P` holds of the node that a reply comes from, unless it is tagged as membership only.
  abbrev pub Granting : Received → Type 0
  Granting (request_from id req now) = Unit {0}
  Granting (reply_from id resp) = (resp.response_tag ≡ some membership_only) ⊎ P id
  Granting (release_from id rel now) = Unit {0}

  -- The acknowledgements are a set of members, each the node itself or one of which `P` holds.
  pub record IsCounted (node : Node) (st : InnerState) : Type 0 where
    pub members_distinct : distinct st.dynamic_node_ids ≡ true
    pub acks_distinct : distinct st.acks ≡ true
    pub acks_members :
        (id : Str) → contains st.acks id ≡ true → contains st.dynamic_node_ids id ≡ true
    pub acks_granted : (id : Str) → contains st.acks id ≡ true → (id ≡ node.self_id) ⊎ P id

  module _ (node : Node) where
    IsCounted-as :
        (st t : InnerState)
        → t.acks ≡ st.acks
        → t.dynamic_node_ids ≡ st.dynamic_node_ids
        → IsCounted node st
        → IsCounted node t
    IsCounted-as st t a m c = record {
      members_distinct = rw m c.members_distinct;
      acks_distinct = rw a c.acks_distinct;
      acks_members = λ id h. rw m (c.acks_members id (rw (← a) h));
      acks_granted = λ id h. c.acks_granted id (rw (← a) h);
    }

    update_membership-IsCounted :
        (from : Str) (known : Option (List Str)) (st : InnerState)
        → IsCounted node st
        → IsCounted node (update_membership from known st).0
    update_membership-IsCounted from known st c =
        let u = update_membership_lem from known st c.members_distinct in
        record {
          members_distinct = u.0;
          acks_distinct = rw u.3 c.acks_distinct;
          acks_members = λ id h. u.2 id (c.acks_members id (rw (← u.3) h));
          acks_granted = λ id h. c.acks_granted id (rw (← u.3) h);
        }

    -- One more acknowledgement, of a member of which `P` holds.
    IsCounted-add :
        (from : Str) (st : InnerState)
        → contains st.dynamic_node_ids from ≡ true
        → P from
        → IsCounted node st
        → IsCounted node (record st { acks = add from st.acks })
    IsCounted-add from st member p c = record {
      members_distinct = c.members_distinct;
      acks_distinct = distinct-add from st.acks c.acks_distinct;
      acks_members = λ id h.
          ground (arith, c.acks_members id, contains-add from id st.acks, str_beq_iff from id);
      acks_granted = λ id h. elim (Bool-cases (from =? id)) [
        | inl e ↦ inr (subst P ((str_beq_iff from id).0 e) p)
        | inr e ↦ c.acks_granted id (ground (arith, contains-add from id st.acks))
      ];
    }

    decide_acks :
        (id : Str) (ts now : ℕ) (st : InnerState)
        → ((decide node id ts now st).0.acks ≡ st.acks)
          × ((decide node id ts now st).0.dynamic_node_ids ≡ st.dynamic_node_ids)
    unfolding decide
    decide_acks id ts now st = ground arith

    grant_next_acks :
        (now : ℕ) (st : InnerState)
        → ((grant_next node now st).0.acks ≡ st.acks)
          × ((grant_next node now st).0.dynamic_node_ids ≡ st.dynamic_node_ids)
    unfolding grant_next
    grant_next_acks now st = ground arith

    IsCounted-if :
        (b : Bool) (from : Str) (st : InnerState)
        → contains st.dynamic_node_ids from ≡ true
        → (b ≡ true → P from)
        → IsCounted node st
        → IsCounted node (if b then record st { acks = add from st.acks } else st)
    IsCounted-if true from st member p c = IsCounted-add from st member (p refl) c
    IsCounted-if false from st member p c = c

    handle_reply-IsCounted :
        (from : Str) (resp : MutexResponse) (st : InnerState)
        → (resp.response_tag ≡ some membership_only) ⊎ P from
        → IsCounted node st
        → IsCounted node (handle_reply node from resp st).0
    unfolding handle_reply
    handle_reply-IsCounted from resp st g c =
        let known = (update_membership from resp.known_ids st).0 in
        IsCounted-if
          (if requesting known then not (resp.response_tag =? some membership_only) else false) from
          known (update_membership_lem from resp.known_ids st c.members_distinct).1
          (λ b. elim g [
            | inl tagged ↦
                absurd (ground (arith, b, option_beq_iff resp.response_tag (some membership_only)))
            | inr p ↦ p
          ])
          (update_membership-IsCounted from resp.known_ids st c)

    receive-IsCounted :
        (r : Received) (st : InnerState)
        → Granting r
        → IsCounted node st
        → IsCounted node (receive node r st).0
    unfolding receive handle_request handle_release
    receive-IsCounted (request_from id req now) st g c =
        let ticked : InnerState = record st {
          lamport = next_ts (max st.lamport req.lamport_timestamp);
        } in
        let known = (update_membership id req.known_ids ticked).0 in
        let d = decide_acks id req.lamport_timestamp now known in
        IsCounted-as known _ d.0 d.1
          (update_membership-IsCounted id req.known_ids ticked (IsCounted-as st ticked refl refl c))
    receive-IsCounted (reply_from id resp) st g c = handle_reply-IsCounted id resp st g c
    receive-IsCounted (release_from id rel now) st g c =
        let known = (update_membership id rel.known_ids st).0 in
        let freed : InnerState =
          if holds id known.last_holder then record known { last_holder = none } else known in
        let d = grant_next_acks now freed in
        IsCounted-as freed _ d.0 d.1 (
          IsCounted-as known freed (ground arith) (ground arith)
            (update_membership-IsCounted id rel.known_ids st c))

    pub receive_all-IsCounted :
        (rs : List Received) (st : InnerState)
        → All Granting rs
        → IsCounted node st
        → IsCounted node (receive_all node rs st).0
    unfolding receive_all
    receive_all-IsCounted [] st g c = c
    receive_all-IsCounted (r ∷ rs) st g c =
        receive_all-IsCounted rs (receive node r st).0 g.1 (receive-IsCounted r st g.0 c)
