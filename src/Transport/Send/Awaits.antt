-- ===== src/Transport/Send/Awaits.antt =====
-- What holds of the transport while `send` waits, and once its acknowledgement has come.
use bingle_rust.Base.{
  ℕ, ◌≡◌, ◌≢◌, ◌⊎◌, inl, inr, sym, ◌∙◌, subst, true, false, not, Option, none, some, List, [], ◌∷◌,
  arith, All, Bool-cases, Option-cases,
}
use bingle_rust.Base.Eq.{◌=?◌, nat_eq, pair_eq, pair_beq_iff}
use bingle_rust.Base.Map.{
  get, contains_key, get-insert, get-remove, get-retain_keys, contains_key-insert,
  contains_key-insert_self,
}
use bingle_rust.Base.Str.{Str}
use bingle_rust.Net.Endpoint.{
  NetworkEndpoint, NetworkEndpointKey, key, get_key, key_eq, key_beq_iff,
}
use bingle_rust.Turn.ChannelData.{Bytes}
use bingle_rust.Transport.Packet.{parse_packet, ack_complete}
use bingle_rust.Transport.State.{
  Transport, Effect, effect, AckKey, complete_pending_ack, mark_received,
  current_session_generation, reset_session, advance_generation, drop_pending, drop_received,
  next_session_generation, endpoint_key,
}
use bingle_rust.Transport.Keeps.{Keeps, Keeps-new_session, Keeps-handle_new_dtls_session}
use bingle_rust.Transport.Inbound.{
  Event, packet_from, new_session, Meets, AnyPacket, run, step, dispatch_inbound_packet, arm,
  dispatch_parsed,
}
use bingle_rust.Transport.Inbound.Induction.{run_induction}
use bingle_rust.Transport.Inbound.Delivery.{OtherPeer}

abbrev AnyPeer : NetworkEndpoint → Type 0
AnyPeer e = Unit {0}

module _ (k : NetworkEndpointKey) (g n w : ℕ) where
  -- The session of the peer is at generation g; the waiter is entered under the number, or its flag
  -- is set.
  pub record Awaits (t : Transport) : Type 0 where
    pub sessions_sound : t.endpoint_sessions.poisoned ≡ false
    pub pending_sound : t.pending_acks.poisoned ≡ false
    pub session : get t.endpoint_sessions.inner k ≡ some g
    pub waiting :
        (get t.pending_acks.inner (k, (g, n)) ≡ some w) ⊎ (contains_key t.completed w ≡ true)

  -- The flag is set.
  pub record IsDone (t : Transport) : Type 0 where
    pub set : contains_key t.completed w ≡ true

  pub Awaits-effect : (e : Effect) → Keeps Awaits (effect e)
  Awaits-effect e = record { at = λ t r. ground arith }

  Awaits-generation : (j : NetworkEndpointKey) → Keeps Awaits (current_session_generation j)
  unfolding current_session_generation
  Awaits-generation j = record {
    at = λ t r. ground (arith, get-insert j k 0 t.endpoint_sessions.inner, key_beq_iff j k);
  }

  Awaits-receive : (a : AckKey) → Keeps Awaits (mark_received a)
  unfolding mark_received
  Awaits-receive a = record { at = λ t r. ground arith }

  IsDone-effect : (e : Effect) → Keeps IsDone (effect e)
  IsDone-effect e = record { at = λ t r. ground arith }

  IsDone-complete : (a : AckKey) → Keeps IsDone (complete_pending_ack a)
  unfolding complete_pending_ack
  IsDone-complete a = record {
    at = λ t r. elim (Option-cases (get t.pending_acks.inner a)) [
      | inl e ↦ ground (arith, r.set)
      | inr (v, e) ↦ ground (arith, r.set, e, contains_key-insert v w tt t.completed)
    ];
  }

  complete_other :
      (a : AckKey) (t : Transport)
      → (a =? (k, (g, n))) ≡ false
      → get (complete_pending_ack a t).1.pending_acks.inner (k, (g, n))
        ≡ get t.pending_acks.inner (k, (g, n))
  unfolding complete_pending_ack
  complete_other a t differs = ground (arith, get-remove a (k, (g, n)) t.pending_acks.inner)

  complete_this :
      (t : Transport)
      → t.pending_acks.poisoned ≡ false
      → get t.pending_acks.inner (k, (g, n)) ≡ some w
      → contains_key (complete_pending_ack (k, (g, n)) t).1.completed w ≡ true
  unfolding complete_pending_ack
  complete_this t sound e = ground (arith, contains_key-insert_self w tt t.completed)

  complete_kept :
      (a : AckKey) (t : Transport)
      → Awaits t
      → ((complete_pending_ack a t).1.endpoint_sessions.poisoned ≡ false)
        × ((complete_pending_ack a t).1.pending_acks.poisoned ≡ false)
        × (get (complete_pending_ack a t).1.endpoint_sessions.inner k ≡ some g)
  unfolding complete_pending_ack
  complete_kept a t r = ground (arith, r.sessions_sound, r.pending_sound, r.session)

  complete_waiting :
      (a : AckKey) (t : Transport)
      → Awaits t
      → (get (complete_pending_ack a t).1.pending_acks.inner (k, (g, n)) ≡ some w)
        ⊎ (contains_key (complete_pending_ack a t).1.completed w ≡ true)
  complete_waiting a t r = elim r.waiting [
    | inr done ↦ inr ((IsDone-complete a).at t (record { set = done })).set
    | inl entered ↦ elim (Bool-cases (a =? (k, (g, n)))) [
      | inr differs ↦ inl (complete_other a t differs ∙ entered)
      | inl same ↦
          let this : a ≡ (k, (g, n)) = (pair_beq_iff a (k, (g, n))).0 same in
          inr (
            subst (λ (b : AckKey). contains_key (complete_pending_ack b t).1.completed w ≡ true)
              (sym this) (complete_this t r.pending_sound entered))
    ]
  ]

  Awaits-complete : (a : AckKey) → Keeps Awaits (complete_pending_ack a)
  Awaits-complete a = record {
    at = λ t r. record {
      sessions_sound = (complete_kept a t r).0;
      pending_sound = (complete_kept a t r).1;
      session = (complete_kept a t r).2;
      waiting = complete_waiting a t r;
    };
  }

  Awaits-reset : (j : NetworkEndpointKey) → j ≢ k → Keeps Awaits (reset_session j)
  unfolding reset_session advance_generation drop_pending drop_received
  Awaits-reset j other = record {
    at = λ t r. record {
      sessions_sound = ground (arith, r.sessions_sound);
      pending_sound = ground (arith, r.pending_sound);
      session = ground (
        arith,
        r.session,
        get-insert j k
            (next_session_generation
              (elim (get t.endpoint_sessions.inner j) [ some x ↦ x | none ↦ 0 ]))
            t.endpoint_sessions.inner,
        key_beq_iff j k,
      );
      waiting = elim r.waiting [
        | inr done ↦ inr (ground (arith, done))
        | inl entered ↦ inl (
            ground (
              arith,
              entered,
              get-retain_keys (λ (a : AckKey). not (a.0 =? j)) (k, (g, n)) t.pending_acks.inner,
              key_beq_iff k j,
            ))
      ];
    };
  }

  IsDone-reset : (j : NetworkEndpointKey) → Keeps IsDone (reset_session j)
  unfolding reset_session advance_generation drop_pending drop_received
  IsDone-reset j = record { at = λ t r. record { set = ground (arith, r.set) } }

  IsDone-generation : (j : NetworkEndpointKey) → Keeps IsDone (current_session_generation j)
  unfolding current_session_generation
  IsDone-generation j = record { at = λ t r. record { set = ground (arith, r.set) } }

  IsDone-receive : (a : AckKey) → Keeps IsDone (mark_received a)
  unfolding mark_received
  IsDone-receive a = record { at = λ t r. record { set = ground (arith, r.set) } }

  pub run-Awaits :
      (es : List Event) (t : Transport)
      → All (Meets (OtherPeer k) AnyPacket) es
      → Awaits t
      → Awaits (run t es)
  run-Awaits es t a r =
      run_induction Awaits Awaits-effect Awaits-generation Awaits-receive (OtherPeer k) AnyPacket
        (λ e other. Keeps-handle_new_dtls_session Awaits k e other Awaits-reset)
        (λ from packet any j i m keyed parsed. Awaits-complete (j, (i, m))) es t a r

  any_event : (es : List Event) → All (Meets AnyPeer AnyPacket) es
  any_event [] = tt
  any_event (packet_from from issuer packet answer ∷ es) = (tt, any_event es)
  any_event (new_session e ∷ es) = (tt, any_event es)

  pub run-IsDone : (es : List Event) (t : Transport) → IsDone t → IsDone (run t es)
  run-IsDone es t r =
      run_induction IsDone IsDone-effect IsDone-generation IsDone-receive AnyPeer AnyPacket
        (λ e any. Keeps-new_session IsDone e IsDone-reset)
        (λ from packet any j i m keyed parsed. IsDone-complete (j, (i, m))) es t (any_event es) r

  step-complete_pending_ack :
      (from : NetworkEndpoint) (issuer : Str) (packet : Bytes) (answer : Option Str) (t : Transport)
      → get_key from ≡ key k
      → parse_packet packet ≡ some (ack_complete n)
      → Awaits t
      → step t (packet_from from issuer packet answer) ≡ (complete_pending_ack (k, (g, n)) t).1
  unfolding step dispatch_inbound_packet endpoint_key current_session_generation arm dispatch_parsed
      complete_pending_ack
  step-complete_pending_ack from issuer packet answer t keyed parsed r =
      ground (arith, r.session, r.sessions_sound, r.pending_sound)

  -- The acknowledgement sets the flag.
  pub step-IsDone :
      (from : NetworkEndpoint) (issuer : Str) (packet : Bytes) (answer : Option Str) (t : Transport)
      → get_key from ≡ key k
      → parse_packet packet ≡ some (ack_complete n)
      → Awaits t
      → IsDone (step t (packet_from from issuer packet answer))
  step-IsDone from issuer packet answer t keyed parsed r =
      subst IsDone (sym (step-complete_pending_ack from issuer packet answer t keyed parsed r))
        (elim r.waiting [
          | inl entered ↦ record { set = complete_this t r.pending_sound entered }
          | inr done ↦ (IsDone-complete (k, (g, n))).at t (record { set = done })
        ])
