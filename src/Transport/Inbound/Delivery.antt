-- ===== src/Transport/Inbound/Delivery.antt =====
-- A data packet is acknowledged each time that it arrives, and handed over once in a session.
use bingle_rust.Base.{ℕ, ◌≡◌, ◌≢◌, true, false, not, Option, none, some, List, ◌∷◌, arith, All, ◌<◌}
use bingle_rust.Base.Eq.{◌=?◌, nat_eq, pair_eq}
use bingle_rust.Base.Map.{
  get, contains_key, contains_key-insert, contains_key-insert_self, get-insert, get-retain_keys,
}
use bingle_rust.Base.Str.{Str}
use bingle_rust.Net.Endpoint.{
  NetworkEndpoint, NetworkEndpointKey, key, get_key, key_eq, key_beq_iff,
}
use bingle_rust.Turn.ChannelData.{Bytes}
use bingle_rust.Transport.Packet.{build_header, build_data_single_packet, packet_type_ack_complete}
use bingle_rust.Transport.Packet.Laws.{parse_packet-build}
use bingle_rust.Transport.State.{
  Transport, M, Handler, ok, effect, Effect, sent, delivered, AckKey, endpoint_key,
  current_session_generation, complete_pending_ack, mark_received, next_session_generation,
  reset_session, advance_generation, drop_pending, drop_received,
}
use bingle_rust.Transport.Keeps.{Keeps, Keeps-bind, Keeps-handle_new_dtls_session}
use bingle_rust.Transport.Inbound.{
  dispatch_inbound_packet, arm, dispatch_parsed, send_ack_complete, dtls_send, hand_over, Event,
  Meets, AnyPacket, run,
}
use bingle_rust.Transport.Inbound.Induction.{run_induction}

-- The session of the peer is at a generation, and the packet of a number was taken in it.
pub record Remembers (k : NetworkEndpointKey) (g n : ℕ) (t : Transport) : Type 0 where
  pub sessions_sound : t.endpoint_sessions.poisoned ≡ false
  pub received_sound : t.received_single_blocks.poisoned ≡ false
  pub session : get t.endpoint_sessions.inner k ≡ some g
  pub taken : contains_key t.received_single_blocks.inner (k, (g, n)) ≡ true

abbrev pub OtherPeer : NetworkEndpointKey → NetworkEndpoint → Type 0
OtherPeer k e = get_key e ≢ key k

module _ (k : NetworkEndpointKey) (g n : ℕ) where
  keep_effect : (e : Effect) → Keeps (Remembers k g n) (effect e)
  keep_effect e = record { at = λ t r. ground arith }

  keep_generation :
      (j : NetworkEndpointKey) → Keeps (Remembers k g n) (current_session_generation j)
  unfolding current_session_generation
  keep_generation j = record {
    at = λ t r. ground (arith, get-insert j k 0 t.endpoint_sessions.inner, key_beq_iff j k);
  }

  keep_complete : (a : AckKey) → Keeps (Remembers k g n) (complete_pending_ack a)
  unfolding complete_pending_ack
  keep_complete a = record { at = λ t r. ground arith }

  keep_receive : (a : AckKey) → Keeps (Remembers k g n) (mark_received a)
  unfolding mark_received
  keep_receive a = record {
    at = λ t r. ground (arith, contains_key-insert a (k, (g, n)) tt t.received_single_blocks.inner);
  }

  keep_advance : (j : NetworkEndpointKey) → j ≢ k → Keeps (Remembers k g n) (advance_generation j)
  unfolding advance_generation
  keep_advance j other = record {
    at = λ t r. ground (
      arith,
      get-insert j k
          (next_session_generation
            (elim (get t.endpoint_sessions.inner j) [ some g ↦ g | none ↦ 0 ]))
          t.endpoint_sessions.inner,
      key_beq_iff j k,
    );
  }

  keep_drop_pending : (j : NetworkEndpointKey) → Keeps (Remembers k g n) (drop_pending j)
  unfolding drop_pending
  keep_drop_pending j = record { at = λ t r. ground arith }

  keep_drop_received : (j : NetworkEndpointKey) → j ≢ k → Keeps (Remembers k g n) (drop_received j)
  unfolding drop_received contains_key
  keep_drop_received j other = record {
    at = λ t r. ground (
      arith,
      get-retain_keys (λ (a : AckKey). not (a.0 =? j)) (k, (g, n)) t.received_single_blocks.inner,
      key_beq_iff k j,
    );
  }

  keep_reset : (j : NetworkEndpointKey) → j ≢ k → Keeps (Remembers k g n) (reset_session j)
  unfolding reset_session
  keep_reset j other = Keeps-bind (Remembers k g n) _ _ (keep_advance j other) (λ a.
      Keeps-bind (Remembers k g n) _ _ (keep_drop_pending j) (λ b. keep_drop_received j other))

  -- Whatever arrives, but for a new session with the peer, the packet stays known.
  pub run-Remembers :
      (es : List Event) (t : Transport)
      → All (Meets (OtherPeer k) AnyPacket) es
      → Remembers k g n t
      → Remembers k g n (run t es)
  run-Remembers es t a r =
      run_induction (Remembers k g n) keep_effect keep_generation keep_receive (OtherPeer k)
        AnyPacket (λ e other. Keeps-handle_new_dtls_session (Remembers k g n) k e other keep_reset)
        (λ from packet any j i m keyed parsed. keep_complete (j, (i, m))) es t a r

-- The generation at which packets of the peer are taken.
abbrev pub generation_of : Transport → NetworkEndpointKey → ℕ
generation_of t k = elim (get t.endpoint_sessions.inner k) [ some g ↦ g | none ↦ 0 ]

-- The acknowledgement that is sent for a number.
abbrev pub ack_for : NetworkEndpoint → ℕ → Effect
ack_for from n = sent from (build_header packet_type_ack_complete n)

module _ (from : NetworkEndpoint) (k : NetworkEndpointKey) (issuer : Str) (n : ℕ) (block : Bytes)
    (keyed : get_key from ≡ key k) (small : n < 65536) where
  abbrev pub arrive : M (Option Bytes)
  arrive = dispatch_inbound_packet from issuer (build_data_single_packet n block) none

  arrive_again :
      (g : ℕ) (t : Transport)
      → Remembers k g n t
      → ((arrive t).0 ≡ ok none) × ((arrive t).1.effects ≡ ack_for from n ∷ t.effects)
  unfolding dispatch_inbound_packet endpoint_key current_session_generation arm dispatch_parsed
      send_ack_complete dtls_send mark_received
  arrive_again g t r = ground (arith, (parse_packet-build n block small).0)

  arrive_first :
      (t : Transport) (f : Handler)
      → t.endpoint_sessions.poisoned ≡ false
      → t.received_single_blocks.poisoned ≡ false
      → t.handle_message.poisoned ≡ false
      → t.handle_message.inner ≡ some f
      → contains_key t.received_single_blocks.inner (k, (generation_of t k, n)) ≡ false
      → ((arrive t).0 ≡ f from issuer block)
        × ((arrive t).1.effects ≡ delivered from issuer block ∷ ack_for from n ∷ t.effects)
        × Remembers k (generation_of t k) n (arrive t).1
  unfolding dispatch_inbound_packet endpoint_key current_session_generation arm dispatch_parsed
      send_ack_complete dtls_send mark_received hand_over
  arrive_first t f s1 s2 s3 handler fresh = ground (
    arith,
    (parse_packet-build n block small).0,
    get-insert k k 0 t.endpoint_sessions.inner,
    key_beq_iff k k,
    contains_key-insert_self {K = AckKey} (k, (generation_of t k, n)) tt
        t.received_single_blocks.inner,
  )

  -- A data packet whose number was not taken in the peer's session is handed to the handler, after
  -- it is acknowledged, and the handler's answer is returned; whatever arrives then, but for a new
  -- session with that peer, the packet is acknowledged again and not handed over again; on sound
  -- locks, with DTLS taking the acknowledgements.
  pub dispatch_inbound_packet_once :
      (t : Transport) (f : Handler)
      → t.endpoint_sessions.poisoned ≡ false
      → t.received_single_blocks.poisoned ≡ false
      → t.handle_message.poisoned ≡ false
      → t.handle_message.inner ≡ some f
      → contains_key t.received_single_blocks.inner (k, (generation_of t k, n)) ≡ false
      → (es : List Event) → All (Meets (OtherPeer k) AnyPacket) es
      → ((arrive t).0 ≡ f from issuer block)
        × ((arrive t).1.effects ≡ delivered from issuer block ∷ ack_for from n ∷ t.effects)
        × ((arrive (run (arrive t).1 es)).0 ≡ ok none)
        × ((arrive (run (arrive t).1 es)).1.effects
            ≡ ack_for from n ∷ (run (arrive t).1 es).effects)
  dispatch_inbound_packet_once t f s1 s2 s3 handler fresh es others =
      let first = arrive_first t f s1 s2 s3 handler fresh in
      let later =
        arrive_again (generation_of t k) (run (arrive t).1 es)
          (run-Remembers k (generation_of t k) n es (arrive t).1 others first.2) in
      (first.0, first.1, later.0, later.1)
