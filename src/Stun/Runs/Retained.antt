-- ===== src/Stun/Runs/Retained.antt =====
-- Servers that answered stay, whatever happens
-- (bingle_core/src/stun/stun_endpoint_finder_impl.rs).
use bingle_rust.Base.{
  ℕ, ◌+◌, ◌%◌, ◌^◌, ◌≡◌, sym, subst, ◌&&◌, Bool, true, Option, none, some, List, [], ◌∷◌, All, any,
  map, retain, min, arith, Bool-cases, leb, inl, inr,
}
use bingle_rust.Base.Eq.{◌=?◌}
use bingle_rust.Net.{SocketAddr, sock_eq}
use bingle_rust.Turn.ChannelData.{Bytes}
use bingle_rust.Stun.Packets.{parse_xor_mapped_address}
use bingle_rust.Stun.{
  Inner, ServerStatus, blocked, state_eq, is_stable, recompute_state_and_notify, process_packet,
  update_first, answered, forget_round, reset_state,
}
use bingle_rust.Stun.Poll.{
  stun_process_tick, check_silence, silence_too_long, poll_if_due, is_due, poll, poll_servers,
  poll_each, poll_one, polled, to_poll, check_blocked, judge, start_over, ask_again, prune,
  no_failures, is_kept, not_blocked_yet,
}
use bingle_rust.Stun.Runs.{Action, ticks, receives, resets, inits, step, run}

abbrev pub has_answered : SocketAddr → ServerStatus → Bool
has_answered a s = (s.addr =? a) && s.ever_responded

abbrev pub knows : SocketAddr → Inner → Bool
knows a i = any (has_answered a) i.servers

abbrev pub is_listed : SocketAddr → Inner → Bool
is_listed a i = any (λ (s : ServerStatus). s.addr =? a) i.servers

-- The finder is not initialized anew.
abbrev pub Continues : Action → Type 0
Continues ticks = Unit
Continues (receives from packet) = Unit
Continues resets = Unit
Continues (inits servers search_ms repeat_ms override) = ⊥

module _ (a : SocketAddr) where
  Keeps : (ServerStatus → ServerStatus) → Type 0
  Keeps f = (s : ServerStatus) → has_answered a s ≡ true → has_answered a (f s) ≡ true

  any-map :
      (f : ServerStatus → ServerStatus) (l : List ServerStatus)
      → Keeps f
      → any (has_answered a) l ≡ true
      → any (has_answered a) (map f l) ≡ true
  unfolding any Keeps
  any-map f [] k h = h
  any-map f (s ∷ rest) k h = ground (arith, k s, any-map f rest k)

  any-update_first :
      (b : SocketAddr) (f : ServerStatus → ServerStatus) (l : List ServerStatus)
      → Keeps f
      → any (has_answered a) l ≡ true
      → any (has_answered a) (update_first b f l) ≡ true
  unfolding any update_first Keeps
  any-update_first b f [] k h = h
  any-update_first b f (s ∷ rest) k h = ground (arith, k s, any-update_first b f rest k)

  any-retain :
      (l : List ServerStatus)
      → any (has_answered a) l ≡ true
      → any (has_answered a) (retain is_kept l) ≡ true
  unfolding any retain
  any-retain [] h = h
  any-retain (s ∷ rest) h = ground (arith, any-retain rest)

  recompute_state_and_notify-knows :
      (i : Inner) → knows a i ≡ true → knows a (recompute_state_and_notify i).0 ≡ true
  unfolding recompute_state_and_notify
  recompute_state_and_notify-knows i h = ground arith

  check_silence-knows :
      (i : Inner) (now : ℕ) → knows a i ≡ true → knows a (check_silence i now).0 ≡ true
  unfolding check_silence Keeps
  check_silence-knows i now h =
      let afresh = record i {
        last_response_tick = none;
        last_request_tick = none;
        intervals_without_two = 0;
        servers = map forget_round i.servers;
      } in
      let again =
        recompute_state_and_notify-knows afresh (any-map forget_round i.servers (λ s k. k) h) in
      elim (Bool-cases (is_stable i.state && silence_too_long i now)) [
        | inl e ↦ rw e again
        | inr e ↦ rw e h
      ]

  poll_each-knows :
      (l : List SocketAddr) (now : ℕ) (i : Inner)
      → knows a i ≡ true
      → knows a (poll_each l now i).0 ≡ true
  unfolding poll_each poll_one Keeps
  poll_each-knows [] now i h = h
  poll_each-knows (addr ∷ rest) now i h =
      poll_each-knows rest now (poll_one addr now i)
        (any-update_first addr (polled now) i.servers (λ s k. k) h)

  judge-servers : (i : Inner) → (judge i).0.servers ≡ i.servers
  unfolding judge
  judge-servers i = ground arith

  start_over-knows : (i : Inner) → knows a i ≡ true → knows a (start_over i) ≡ true
  unfolding start_over Keeps
  start_over-knows i h =
      let asked = any-map ask_again i.servers (λ s k. ground arith) h in
      elim (Bool-cases (not_blocked_yet i)) [ inl e ↦ rw e asked | inr e ↦ rw e h ]

  check_blocked-knows : (i : Inner) → knows a i ≡ true → knows a (check_blocked i).0 ≡ true
  unfolding check_blocked
  check_blocked-knows i h =
      let counted = record i { intervals_without_two = min (i.intervals_without_two + 1) 255 } in
      let judged =
        start_over-knows (judge counted).0
          (subst (λ l. any (has_answered a) l ≡ true) (sym (judge-servers counted)) h) in
      elim (Bool-cases (is_stable i.state)) [
        | inl e ↦ rw e h
        | inr e ↦ rw e (elim (Bool-cases (leb 3 counted.intervals_without_two)) [
          | inl g ↦ rw g judged
          | inr g ↦ rw g h
        ])
      ]

  prune-knows : (i : Inner) → knows a i ≡ true → knows a (prune i) ≡ true
  unfolding prune Keeps
  prune-knows i h =
      let forgiven = any-map no_failures i.servers (λ s k. k) h in
      let left = any-retain i.servers h in
      elim (Bool-cases (i.state =? blocked)) [ inl e ↦ rw e forgiven | inr e ↦ rw e left ]

  poll_servers-knows :
      (l : List SocketAddr) (now : ℕ) (i : Inner)
      → knows a i ≡ true
      → knows a (poll_servers l now i).0 ≡ true
  unfolding poll_servers
  poll_servers-knows [] now i h = prune-knows i h
  poll_servers-knows (addr ∷ rest) now i h =
      let asked = poll_each (addr ∷ rest) now i in
      prune-knows (check_blocked asked.0).0
        (check_blocked-knows asked.0 (poll_each-knows (addr ∷ rest) now i h))

  poll_if_due-knows :
      (i : Inner) (now : ℕ) → knows a i ≡ true → knows a (poll_if_due i now).0 ≡ true
  unfolding poll_if_due poll
  poll_if_due-knows i now h =
      let started = record i { last_poll_tick = some now } in
      let asked = poll_servers-knows (to_poll started) now started h in
      elim (Bool-cases (is_due i now)) [ inl e ↦ rw e asked | inr e ↦ rw e h ]

  step-knows :
      (action : Action) (i : Inner)
      → Continues action
      → knows a i ≡ true
      → knows a (step action i).0 ≡ true
  unfolding step stun_process_tick process_packet reset_state Keeps
  step-knows ticks i c h =
      let now = (i.current_tick + 1) % 2 ^ 64 in
      let started = record i { current_tick = now } in
      poll_if_due-knows (check_silence started now).0 now (check_silence-knows started now h)
  step-knows (receives from packet) i c h =
      recompute_state_and_notify-knows
        (record i {
          servers = update_first from (answered (parse_xor_mapped_address packet)) i.servers;
          last_response_tick = some i.current_tick;
          last_request_tick = none;
        })
        (any-update_first from (answered (parse_xor_mapped_address packet)) i.servers
          (λ s k. ground arith) h)
  step-knows resets i c h = any-map forget_round i.servers (λ s k. k) h
  step-knows (inits servers search_ms repeat_ms override) i c h = absurd c

  run-knows :
      (actions : List Action) (i : Inner)
      → All Continues actions
      → knows a i ≡ true
      → knows a (run actions i) ≡ true
  unfolding run
  run-knows [] i c h = h
  run-knows (action ∷ rest) i c h = run-knows rest (step action i).0 c.1 (step-knows action i c.0 h)

any-answered :
    (from : SocketAddr) (mapped : Option SocketAddr) (l : List ServerStatus)
    → any (λ (s : ServerStatus). s.addr =? from) l ≡ true
    → any (has_answered from) (update_first from (answered mapped) l) ≡ true
unfolding any update_first
any-answered from mapped [] h = absurd (ground arith)
any-answered from mapped (s ∷ rest) h = ground (arith, any-answered from mapped rest)

-- A server of the finder's list from which a packet came stays in the list as one that has
-- answered, whatever ticks, packets and resets come after, until the finder is initialized anew.
pub run-process_packet-knows :
    (from : SocketAddr) (packet : Bytes) (actions : List Action) (i : Inner)
    → is_listed from i ≡ true
    → All Continues actions
    → knows from (run actions (process_packet from packet i).0) ≡ true
unfolding process_packet
run-process_packet-knows from packet actions i listed c =
    run-knows from actions (process_packet from packet i).0 c (
      recompute_state_and_notify-knows from
        (record i {
          servers = update_first from (answered (parse_xor_mapped_address packet)) i.servers;
          last_response_tick = some i.current_tick;
          last_request_tick = none;
        })
        (any-answered from (parse_xor_mapped_address packet) i.servers listed))
