-- ===== src/Transport/Send/Unacked.antt =====
-- `send` does not succeed unless an acknowledgement with its number came from its peer.
use bingle_rust.Base.{
  ℕ, ◌+◌, ◌≤◌, ◌≡◌, ◌≢◌, refl, ap, sym, ◌∙◌, subst, Bool, true, false, not, Option, some, List, [],
  ◌∷◌, arith, length, ltb, All, inl, inr, Option-cases,
}
use bingle_rust.Base.Eq.{◌=?◌, nat_eq, pair_eq, pair_beq_iff}
use bingle_rust.Base.Map.{
  get, contains_key, get-insert, get-remove, get-retain_keys, contains_key-insert,
}
use bingle_rust.Base.Str.{Str}
use bingle_rust.Net.Endpoint.{NetworkEndpoint, NetworkEndpointKey, key, get_key, key_eq}
use bingle_rust.Turn.ChannelData.{Bytes}
use bingle_rust.Transport.Packet.{parse_packet, ack_complete}
use bingle_rust.Transport.State.{
  Transport, Result, ok, err, panic, Effect, effect, AckKey, clear_pending_ack,
  complete_pending_ack, mark_received, current_session_generation, reset_session,
  advance_generation, drop_pending, drop_received,
}
use bingle_rust.Transport.Keeps.{Keeps, Keeps-pure, Keeps-new_session, bind_never}
use bingle_rust.Transport.Inbound.{Event, dtls_send, Meets, run}
use bingle_rust.Transport.Inbound.Induction.{run_induction, Keeps-dtls_send}
use bingle_rust.Transport.Send.{
  Schedule, send, send_registered, attempts, wait_for_ack_complete_with_timeout, send_or_clear,
  after_send, send_again_if, clear_and_fail, schedule_delays, finish,
}
use bingle_rust.Transport.Send.Prefix.{IsSound, registered, ack_key_of, send-registered}

-- The waiter's flag is not set, and it waits for nothing but the number, from the peer.
pub record Unacked (k : NetworkEndpointKey) (n w : ℕ) (t : Transport) : Type 0 where
  pub unset : contains_key t.completed w ≡ false
  pub entries : (b : AckKey) → get t.pending_acks.inner b ≡ some w → (b.0 ≡ k) × (b.1.1 ≡ n)

-- The packet is no acknowledgement of the number from the peer.
abbrev pub NoAck : NetworkEndpointKey → ℕ → NetworkEndpoint → Bytes → Type 0
NoAck k n from packet = (get_key from ≡ key k) × (parse_packet packet ≡ some (ack_complete n)) → ⊥

abbrev pub AnySession : NetworkEndpoint → Type 0
AnySession e = Unit {0}

pub schedule_delays-state : (t : Transport) → (schedule_delays t).1 ≡ t
unfolding schedule_delays
schedule_delays-state t = ground arith

module _ (k : NetworkEndpointKey) (n w : ℕ) where
  keep_effect : (e : Effect) → Keeps (Unacked k n w) (effect e)
  keep_effect e = record { at = λ t u. record { unset = u.unset; entries = u.entries } }

  keep_generation : (j : NetworkEndpointKey) → Keeps (Unacked k n w) (current_session_generation j)
  unfolding current_session_generation
  keep_generation j = record {
    at = λ t u. record {
      unset = ground (arith, u.unset);
      entries = λ b e. ground (arith, u.entries b);
    };
  }

  keep_receive : (a : AckKey) → Keeps (Unacked k n w) (mark_received a)
  unfolding mark_received
  keep_receive a = record {
    at = λ t u. record {
      unset = ground (arith, u.unset);
      entries = λ b e. ground (arith, u.entries b);
    };
  }

  keep_clear : (a : AckKey) → Keeps (Unacked k n w) (clear_pending_ack a)
  unfolding clear_pending_ack
  keep_clear a = record {
    at = λ t u. record {
      unset = ground (arith, u.unset);
      entries = λ b e. ground (arith, u.entries b, get-remove a b t.pending_acks.inner);
    };
  }

  -- An acknowledgement of another number, or from another peer, sets another flag.
  keep_complete :
      (a : AckKey) → ((a.0 ≡ k) × (a.1.1 ≡ n) → ⊥) → Keeps (Unacked k n w) (complete_pending_ack a)
  unfolding complete_pending_ack
  keep_complete a other = record {
    at = λ t u. record {
      unset = elim (Option-cases (get t.pending_acks.inner a)) [
        | inl e ↦ ground (arith, u.unset, e)
        | inr (v, e) ↦
            ground (arith, u.unset, e, u.entries a, contains_key-insert v w tt t.completed)
      ];
      entries = λ b e. ground (arith, u.entries b, get-remove a b t.pending_acks.inner);
    };
  }

  keep_reset : (j : NetworkEndpointKey) → Keeps (Unacked k n w) (reset_session j)
  unfolding reset_session advance_generation drop_pending drop_received
  keep_reset j = record {
    at = λ t u. record {
      unset = ground (arith, u.unset);
      entries = λ b e. ground (
        arith,
        u.entries b,
        get-retain_keys (λ (a : AckKey). not (a.0 =? j)) b t.pending_acks.inner,
      );
    };
  }

  run-Unacked :
      (es : List Event) (t : Transport)
      → All (Meets AnySession (NoAck k n)) es
      → Unacked k n w t
      → Unacked k n w (run t es)
  run-Unacked es t a u =
      run_induction (Unacked k n w) keep_effect keep_generation keep_receive AnySession (NoAck k n)
        (λ e any. Keeps-new_session (Unacked k n w) e keep_reset)
        (λ from packet no j g m keyed parsed.
          keep_complete (j, (g, m)) (λ same. no (rw (← same.0) keyed, rw (← same.1) parsed)))
        es t a u

  module _ (s : Schedule) (a : AckKey) (to : NetworkEndpoint) (packet : Bytes) where
    keep_after_send : (r : Result (Unit {0})) → Keeps (Unacked k n w) (after_send a r)
    unfolding after_send clear_and_fail
    keep_after_send (ok done) = record { at = λ t u. u }
    keep_after_send (err e) = record { at = λ t u. (keep_clear a).at t u }
    keep_after_send panic = record { at = λ t u. u }

    keep_send_or_clear :
        (answer : Option Str) → Keeps (Unacked k n w) (send_or_clear a to packet answer)
    unfolding send_or_clear
    keep_send_or_clear answer = record {
      at = λ t u.
          (keep_after_send (dtls_send to packet answer t).0).at (dtls_send to packet answer t).1
            ((Keeps-dtls_send (Unacked k n w) keep_effect to packet answer).at t u);
    }

    keep_send_again_if :
        (b : Bool) (answer : Option Str)
        → Keeps (Unacked k n w) (send_again_if b a to packet answer)
    unfolding send_again_if
    keep_send_again_if true answer = keep_send_or_clear answer
    keep_send_again_if false answer = Keeps-pure (Unacked k n w) tt

    attempts_never :
        ((i : ℕ) → All (Meets AnySession (NoAck k n)) (s.during i))
        → (total : ℕ) (delays : List ℕ) (i : ℕ) (t : Transport) → Unacked k n w t
        → (attempts s a to packet w total i delays t).0 ≢ ok true
    unfolding attempts wait_for_ack_complete_with_timeout
    attempts_never quiet total [] i t u = λ h. cc
    attempts_never quiet total (d ∷ ds) i t u =
        let u' = run-Unacked (s.during i) t (quiet i) u in
        rw u'.unset (
          bind_never (send_again_if (ltb (i + 1) total) a to packet (s.resend i)) _ true _ (λ x e.
            attempts_never quiet total ds (i + 1) _
              ((keep_send_again_if (ltb (i + 1) total) (s.resend i)).at _ u')))

    finish_never :
        (total m : ℕ) (acked : Bool) (t : Transport)
        → acked ≢ true
        → (finish a to total m acked t).0 ≢ ok tt
    unfolding finish
    finish_never total m true t differs = absurd (differs refl)
    finish_never total m false t differs = λ h. cc

    send_registered_never :
        ((i : ℕ) → All (Meets AnySession (NoAck k n)) (s.during i))
        → (t : Transport) → Unacked k n w t
        → (send_registered s to packet a w t).0 ≢ ok tt
    unfolding send_registered
    send_registered_never quiet t u = bind_never (send_or_clear a to packet s.first) _ tt t (λ x e.
        let u1 = (keep_send_or_clear s.first).at t u in
        bind_never schedule_delays _ tt _ (λ ds e.
          let u2 = subst (Unacked k n w) (sym (schedule_delays-state _)) u1 in
          bind_never (attempts s a to packet w (length ds) 0 ds) _ tt _ (λ acked e.
            finish_never (length ds) a.1.1 acked _
              (λ yes. attempts_never quiet (length ds) ds 0 _ u2 (e ∙ ap ok yes)))))

-- Where no waiter of the future is known yet: no flag of it is set, and none is entered.
pub record IsFresh (t : Transport) : Type 0 where
  pub unset : contains_key t.completed t.next_waiter ≡ false
  pub unused : (b : AckKey) → get t.pending_acks.inner b ≢ some t.next_waiter

-- If no packet that arrives during the waits is an acknowledgement of the number of the send from
-- the peer, send does not return success, whatever else arrives and whatever DTLS answers; on a
-- transport with no poisoned lock, for a block that fits in the MTU, where the number of the waiter
-- is not used yet.
pub send_needs_ack :
    (s : Schedule) (to : NetworkEndpoint) (k : NetworkEndpointKey) (block : Bytes) (t : Transport)
    → get_key to ≡ key k
    → IsSound t
    → IsFresh t
    → length block + 4 ≤ t.mtu
    → ((i : ℕ) → All (Meets AnySession (NoAck k t.next_tx_id.inner)) (s.during i))
    → (send s to block t).0 ≢ ok tt
send_needs_ack s to k block t keyed sound fresh fits quiet =
    rw (send-registered s to k block t keyed sound fits) (
      send_registered_never k t.next_tx_id.inner t.next_waiter s (ack_key_of k t) to _ quiet
        (registered k t)
        (record {
          unset = fresh.unset;
          entries = λ b e. ground (
            arith,
            fresh.unused b,
            get-insert (ack_key_of k t) b t.next_waiter t.pending_acks.inner,
            pair_beq_iff (ack_key_of k t) b,
          );
        }))
