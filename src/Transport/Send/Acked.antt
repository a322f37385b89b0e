-- ===== src/Transport/Send/Acked.antt =====
-- `send` succeeds when an acknowledgement with its number comes from its peer.
use bingle_rust.Base.{
  ℕ, ◌+◌, ◌≤◌, ◌<◌, ◌≡◌, ◌⊎◌, inl, inr, refl, ap, ◌∙◌, Bool, true, false, Option, none, some, List,
  [], ◌∷◌, ◌++◌, arith, length, ltb, All, Bool-cases,
}
use bingle_rust.Base.Eq.{nat_eq, pair_eq}
use bingle_rust.Base.Map.{contains_key, get-insert, get-insert_self}
use bingle_rust.Base.Str.{Str}
use bingle_rust.Net.Endpoint.{
  NetworkEndpoint, NetworkEndpointKey, key, get_key, key_eq, key_beq_iff,
}
use bingle_rust.Turn.ChannelData.{Bytes}
use bingle_rust.Transport.Packet.{build_data_single_packet, parse_packet, ack_complete}
use bingle_rust.Transport.State.{Transport, Result, ok, sent, AckKey}
use bingle_rust.Transport.Keeps.{bind_ok}
use bingle_rust.Transport.Inbound.{Event, packet_from, dtls_send, Meets, AnyPacket, run, step}
use bingle_rust.Transport.Inbound.Delivery.{OtherPeer, generation_of}
use bingle_rust.Transport.Send.{
  Schedule, send, send_registered, attempts, wait_for_ack_complete_with_timeout, send_or_clear,
  after_send, send_again_if, schedule_delays, finish,
}
use bingle_rust.Transport.Send.Prefix.{IsSound, registered, ack_key_of, send-registered}
use bingle_rust.Transport.Send.Awaits.{
  Awaits, IsDone, Awaits-effect, run-Awaits, run-IsDone, step-IsDone,
}

less_or_same : (a b : ℕ) → a ≤ b → (a < b) ⊎ (a ≡ b)
less_or_same a b h = elim (Bool-cases (ltb a b)) [
  | inl e ↦ inl (ground arith)
  | inr e ↦ inr (ground arith)
]

run-append : (xs ys : List Event) (t : Transport) → run t (xs ++ ys) ≡ run (run t xs) ys
unfolding run
run-append [] ys t = refl
run-append (x ∷ xs) ys t = run-append xs ys (step t x)

module _ (k : NetworkEndpointKey) (g n w : ℕ) where
  module _ (s : Schedule) (a : AckKey) (to : NetworkEndpoint) (packet : Bytes) (total last : ℕ)
      (before after : List Event) (from : NetworkEndpoint) (issuer : Str) (ack : Bytes)
      (answer : Option Str) where
    -- The acknowledgement comes during the last of the waits, between other events.
    run-acked :
        (t : Transport)
        → s.during last ≡ before ++ packet_from from issuer ack answer ∷ after
        → get_key from ≡ key k
        → parse_packet ack ≡ some (ack_complete n)
        → All (Meets (OtherPeer k) AnyPacket) before
        → Awaits k g n w t
        → IsDone k g n w (run t (s.during last))
    unfolding run
    run-acked t during keyed parsed others r = rw during (
        rw (run-append before (packet_from from issuer ack answer ∷ after) t) (
          run-IsDone k g n w after _ (
            step-IsDone k g n w from issuer ack answer (run t before) keyed parsed
              (run-Awaits k g n w before t others r))))

    send_again_ok :
        (b : Bool) (reply : Option Str) (u : Transport)
        → reply ≡ none
        → Awaits k g n w u
        → ((send_again_if b a to packet reply u).0 ≡ ok tt)
          × Awaits k g n w (send_again_if b a to packet reply u).1
    unfolding send_again_if send_or_clear after_send dtls_send
    send_again_ok true reply u e r = rw e (refl, (Awaits-effect k g n w (sent to packet)).at u r)
    send_again_ok false reply u e r = (refl, r)

    attempts-acked :
        (delays : List ℕ) (i : ℕ) (t : Transport)
        → i ≤ last
        → last < i + length delays
        → ((j : ℕ) → j < last → All (Meets (OtherPeer k) AnyPacket) (s.during j))
        → ((j : ℕ) → j < last → s.resend j ≡ none)
        → ((u : Transport) → Awaits k g n w u → IsDone k g n w (run u (s.during last)))
        → Awaits k g n w t
        → (attempts s a to packet w total i delays t).0 ≡ ok true
    unfolding attempts wait_for_ack_complete_with_timeout
    attempts-acked [] i t low high early resent finally r = absurd (omega arith)
    attempts-acked (d ∷ ds) i t low high early resent finally r =
        let u = run t (s.during i) in
        elim (Bool-cases (contains_key u.completed w)) [
          | inl acked ↦ rw acked refl
          | inr differs ↦
              let more : i < last = elim (less_or_same i last low) [
                | inl less ↦ less
                | inr same ↦ absurd (ground (arith, (finally t r).set, same))
              ] in
              let r' = run-Awaits k g n w (s.during i) t (early i more) r in
              let again = send_again_ok (ltb (i + 1) total) (s.resend i) u (resent i more) r' in
              rw differs (
                ap (λ (x : Result Bool × Transport). x.0)
                  (bind_ok (send_again_if (ltb (i + 1) total) a to packet (s.resend i))
                    (λ _. attempts s a to packet w total (i + 1) ds) tt u again.0)
                ∙ attempts-acked ds (i + 1) _ (omega arith) (omega arith) early resent finally
                    again.1)
        ]

registered-Awaits :
    (k : NetworkEndpointKey) (t : Transport)
    → IsSound t
    → Awaits k (generation_of t k) t.next_tx_id.inner t.next_waiter (registered k t)
registered-Awaits k t sound = record {
  sessions_sound = sound.sessions;
  pending_sound = sound.pending;
  session = ground (arith, get-insert k k 0 t.endpoint_sessions.inner, key_beq_iff k k);
  waiting = inl (get-insert_self (ack_key_of k t) t.next_waiter t.pending_acks.inner);
}

-- If the first send and the sends before a wait succeed, and during that wait, which the schedule
-- has, an acknowledgement of the number comes from the peer, with no new session with the peer
-- before it, then send of a block that fits in the MTU, on a transport with no poisoned lock,
-- returns success, whatever else arrives.
pub send_acked :
    (s : Schedule) (to : NetworkEndpoint) (k : NetworkEndpointKey) (block : Bytes) (t : Transport)
    (i : ℕ) (before after : List Event) (from : NetworkEndpoint) (issuer : Str) (ack : Bytes)
    (answer : Option Str)
    → get_key to ≡ key k
    → IsSound t
    → length block + 4 ≤ t.mtu
    → s.first ≡ none
    → i < length t.retry_delays.inner
    → ((j : ℕ) → j < i → All (Meets (OtherPeer k) AnyPacket) (s.during j))
    → ((j : ℕ) → j < i → s.resend j ≡ none)
    → s.during i ≡ before ++ packet_from from issuer ack answer ∷ after
    → All (Meets (OtherPeer k) AnyPacket) before
    → get_key from ≡ key k
    → parse_packet ack ≡ some (ack_complete t.next_tx_id.inner)
    → (send s to block t).0 ≡ ok tt
unfolding send_registered send_or_clear after_send dtls_send schedule_delays finish
send_acked s to k block t i before after from issuer ack answer keyed sound fits first high early
      resent during others back parsed =
    let packet = build_data_single_packet t.next_tx_id.inner block in
    let g = generation_of t k in
    let n = t.next_tx_id.inner in
    let w = t.next_waiter in
    let delays = t.retry_delays.inner in
    let t1 : Transport = record (registered k t) { effects = sent to packet ∷ t.effects } in
    let start = send-registered s to k block t keyed sound fits in
    let r =
      (Awaits-effect k g n w (sent to packet)).at (registered k t) (registered-Awaits k t sound) in
    let loop =
      attempts-acked k g n w s (ack_key_of k t) to packet (length delays) i before after from issuer
        ack answer delays 0 t1 (omega arith) (omega arith) early resent
        (λ u ru.
          run-acked k g n w s (ack_key_of k t) to packet (length delays) i before after from issuer
            ack answer u during back parsed others ru)
        r in
    ground (arith, start, loop, sound.delays)
