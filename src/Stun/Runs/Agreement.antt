-- ===== src/Stun/Runs/Agreement.antt =====
-- What the answers of the servers say about this node's endpoint
-- (bingle_core/src/stun/stun_endpoint_finder_impl.rs).
use bingle_rust.Base.{
  ℕ, suc, ◌≤◌, ◌≡◌, ◌≢◌, ◌↔◌, ◌⊎◌, refl, sym, ap, subst, inl, inr, true, Option, none, some, List,
  [], ◌∷◌, All, length, arith,
}
use bingle_rust.Base.Eq.{option_eq}
use bingle_rust.Net.{SocketAddr, sock_eq, sock_beq_iff}
use bingle_rust.Turn.ChannelData.{Bytes}
use bingle_rust.Stun.Packets.{parse_xor_mapped_address}
use bingle_rust.Stun.{
  StunState, nothing, single, consistent, blocked, state_eq, state_beq_iff, Inner, ServerStatus,
  classify, endpoints, all_same, recompute_state_and_notify, update_first, answered, process_packet,
}

-- How many servers report an endpoint.
unfoldable pub reporting : List ServerStatus → ℕ
reporting [] = 0
reporting (s ∷ rest) =
    let others = reporting rest in elim s.endpoint [ none ↦ others | some e ↦ suc others ]

-- The server reports no other endpoint.
abbrev pub Reports : SocketAddr → ServerStatus → Type 0
Reports e s = (s.endpoint ≡ none) ⊎ (s.endpoint ≡ some e)

-- What the state says of the servers.
pub record Verdict (state : StunState) (endpoint : Option SocketAddr) (l : List ServerStatus)
    : Type 0 where
  pub no_answer : (state ≡ nothing) ↔ (reporting l ≡ 0)
  pub one_answer : (state ≡ single) ↔ (reporting l ≡ 1)
  pub agreed :
      (e : SocketAddr)
      → ((state ≡ consistent) × (endpoint ≡ some e)) ↔ ((2 ≤ reporting l) × All (Reports e) l)
  pub not_blocked : state ≢ blocked

length-endpoints : (l : List ServerStatus) → length (endpoints l) ≡ reporting l
unfolding endpoints reporting
length-endpoints [] = refl
length-endpoints (s ∷ rest) = ground (arith, length-endpoints rest)

all_same-cons :
    (o : Option SocketAddr) (e : SocketAddr) (others : List SocketAddr) (P : Type 0)
    → (all_same e others ≡ true) ↔ P
    → (all_same e (elim o [ none ↦ others | some x ↦ x ∷ others ]) ≡ true)
      ↔ (((o ≡ none) ⊎ (o ≡ some e)) × P)
unfolding all_same
all_same-cons none e others P rest = (λ h. (inl refl, rest.0 h), λ h. rest.1 h.1)
all_same-cons (some x) e others P rest = (
  (λ h. (inr (ground (arith, sock_beq_iff x e)), rest.0 (ground arith))),
  (λ h. elim h.0 [
    | inl no_endpoint ↦ absurd (ground arith)
    | inr same ↦ ground (arith, sock_beq_iff x e, rest.1 h.1)
  ]),
)

all_same-Reports :
    (e : SocketAddr) (l : List ServerStatus) → (all_same e (endpoints l) ≡ true) ↔ All (Reports e) l
unfolding endpoints all_same
all_same-Reports e [] = (λ h. tt, λ h. refl)
all_same-Reports e (s ∷ rest) =
    all_same-cons s.endpoint e (endpoints rest) (All (Reports e) rest) (all_same-Reports e rest)

same_endpoints_lem :
    (d f : SocketAddr) (rest : List SocketAddr) (e : SocketAddr)
    → (((classify (d ∷ f ∷ rest)).0 ≡ consistent) × ((classify (d ∷ f ∷ rest)).1 ≡ some e))
      ↔ ((2 ≤ length (d ∷ f ∷ rest)) × (all_same e (d ∷ f ∷ rest) ≡ true))
unfolding classify all_same
same_endpoints_lem d f rest e = (
  (λ h. (omega arith, ground (arith, h))),
  (λ h.
      let same : d ≡ e = ground (arith, h.1, sock_beq_iff d e) in
      let here : all_same d (d ∷ f ∷ rest) ≡ true =
        subst (λ x. all_same x (d ∷ f ∷ rest) ≡ true) (sym same) h.1 in
      rw here (refl, ap some same)),
)

record IsClassified (es : List SocketAddr) : Type 0 where
  no_endpoint : ((classify es).0 ≡ nothing) ↔ (length es ≡ 0)
  one_endpoint : ((classify es).0 ≡ single) ↔ (length es ≡ 1)
  same_endpoints :
      (e : SocketAddr)
      → (((classify es).0 ≡ consistent) × ((classify es).1 ≡ some e))
        ↔ ((2 ≤ length es) × (all_same e es ≡ true))
  not_blocked : (classify es).0 ≢ blocked

classify-IsClassified : (es : List SocketAddr) → IsClassified es
unfolding classify
classify-IsClassified [] = record {
  no_endpoint = ground arith;
  one_endpoint = ground arith;
  same_endpoints = λ e. ground arith;
  not_blocked = λ h. cc;
}
classify-IsClassified (d ∷ []) = record {
  no_endpoint = ground arith;
  one_endpoint = ground arith;
  same_endpoints = λ e. ground arith;
  not_blocked = λ h. cc;
}
classify-IsClassified (d ∷ f ∷ rest) = record {
  no_endpoint = ground arith;
  one_endpoint = ground arith;
  same_endpoints = λ e. same_endpoints_lem d f rest e;
  not_blocked = λ h. ground arith;
}

recompute_state_and_notify-classify :
    (i : Inner)
    → ((recompute_state_and_notify i).0.state ≡ (classify (endpoints i.servers)).0)
      × ((recompute_state_and_notify i).0.endpoint ≡ (classify (endpoints i.servers)).1)
      × ((recompute_state_and_notify i).0.servers ≡ i.servers)
unfolding recompute_state_and_notify
recompute_state_and_notify-classify i =
    ground (arith, state_beq_iff (classify (endpoints i.servers)).0 i.state)

Verdict-classify :
    (l : List ServerStatus) → Verdict (classify (endpoints l)).0 (classify (endpoints l)).1 l
Verdict-classify l =
    let c = classify-IsClassified (endpoints l) in
    let n = length-endpoints l in
    record {
      no_answer = ground (arith, n, c.no_endpoint);
      one_answer = ground (arith, n, c.one_endpoint);
      agreed = λ e.
          let (there, back) = c.same_endpoints e in
          let (each, all_of) = all_same-Reports e l in
          (
            (λ h. (omega (arith, n, (there h).0), each (there h).1)),
            (λ h. back (omega (arith, n, h.0), all_of h.1)),
          );
      not_blocked = c.not_blocked;
    }

-- After any packet the finder's state says what the servers report: nothing if none reports an
-- endpoint, single if one does, consistent with an endpoint exactly if two or more report one and
-- none reports another, and it is not blocked.
pub process_packet-Verdict :
    (from : SocketAddr) (packet : Bytes) (i : Inner)
    → Verdict
        (process_packet from packet i).0.state
        (process_packet from packet i).0.endpoint
        (process_packet from packet i).0.servers
unfolding process_packet
process_packet-Verdict from packet i =
    let taken = record i {
      servers = update_first from (answered (parse_xor_mapped_address packet)) i.servers;
      last_response_tick = some i.current_tick;
      last_request_tick = none;
    } in
    let (same_state, same_endpoint, same_servers) = recompute_state_and_notify-classify taken in
    rw same_state (rw same_endpoint (rw same_servers (Verdict-classify taken.servers)))
