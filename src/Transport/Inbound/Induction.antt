-- ===== src/Transport/Inbound/Induction.antt =====
-- What the four steps on the state keep, and a new session keeps, every history of events keeps.
use bingle_rust.Base.{
  ℕ, ◌≡◌, refl, ap, Bool, true, false, Option, none, some, List, [], ◌∷◌, if◌then◌else◌, All,
}
use bingle_rust.Base.Lock.{lock}
use bingle_rust.Base.Str.{Str}
use bingle_rust.Net.Endpoint.{NetworkEndpoint, NetworkEndpointKey, key, get_key}
use bingle_rust.Turn.ChannelData.{Bytes}
use bingle_rust.Transport.Packet.{
  ParsedPacket, data_single, ack_complete, unsupported_frpt, parse_packet,
}
use bingle_rust.Transport.State.{
  Transport, M, pure, raise, Effect, effect, AckKey, endpoint_key, Handler, sent, delivered, dtls,
  current_session_generation, complete_pending_ack, mark_received, handle_new_dtls_session,
}
use bingle_rust.Transport.Keeps.{Keeps, Keeps-pure, Keeps-raise, Keeps-bind, Keeps-key_result}
use bingle_rust.Transport.Inbound.{
  arm, Meets, call_handler, dtls_send, send_ack_complete, hand_over, dispatch_parsed,
  dispatch_inbound_packet, Event, packet_from, new_session, step, run,
}

module _ (P : Transport → Type 0) (effects : (e : Effect) → Keeps P (effect e)) where
  pub Keeps-dtls_send :
      (to : NetworkEndpoint) (packet : Bytes) (answer : Option Str)
      → Keeps P (dtls_send to packet answer)
  unfolding dtls_send
  Keeps-dtls_send to packet none = effects (sent to packet)
  Keeps-dtls_send to packet (some e) =
      Keeps-bind P (effect (sent to packet)) (λ a. raise (dtls e)) (effects (sent to packet))
        (λ a. Keeps-raise P (dtls e))

  Keeps-call_handler :
      (h : Option (Option Handler)) (from : NetworkEndpoint) (issuer : Str) (block : Bytes)
      → Keeps P (call_handler h from issuer block)
  unfolding call_handler
  Keeps-call_handler (some (some handler)) from issuer block = record {
    at = λ t h. (effects (delivered from issuer block)).at t h;
  }
  Keeps-call_handler _ from issuer block = Keeps-pure P none

  Keeps-hand_over :
      (from : NetworkEndpoint) (issuer : Str) (block : Bytes)
      → Keeps P (hand_over from issuer block)
  unfolding hand_over
  Keeps-hand_over from issuer block = record {
    at = λ t h. (Keeps-call_handler (lock t.handle_message) from issuer block).at t h;
  }

  Keeps-deliver_if :
      (b : Bool) (from : NetworkEndpoint) (issuer : Str) (block : Bytes)
      → Keeps P (if b then hand_over from issuer block else pure none)
  Keeps-deliver_if true from issuer block = Keeps-hand_over from issuer block
  Keeps-deliver_if false from issuer block = Keeps-pure P none

  -- An acknowledgement is completed only for the number that the packet carries.
  Keeps-dispatch_parsed :
      (from : NetworkEndpoint) (issuer : Str) (answer : Option Str) (p : ParsedPacket)
      (complete receive : ℕ → M Bool)
      → ((n : ℕ) → p ≡ ack_complete n → Keeps P (complete n))
      → ((n : ℕ) → Keeps P (receive n))
      → Keeps P (dispatch_parsed from issuer answer p complete receive)
  unfolding dispatch_parsed send_ack_complete
  Keeps-dispatch_parsed from issuer answer unsupported_frpt complete receive kc kr =
      Keeps-pure P none
  Keeps-dispatch_parsed from issuer answer (ack_complete n) complete receive kc kr =
      Keeps-bind P _ _ (kc n refl) (λ a. Keeps-pure P none)
  Keeps-dispatch_parsed from issuer answer (data_single n payload) complete receive kc kr =
      Keeps-bind P _ _ (Keeps-dtls_send from _ answer)
        (λ a. Keeps-bind P _ _ (kr n) (λ b. Keeps-deliver_if b from issuer payload))

  module _ (generation : (k : NetworkEndpointKey) → Keeps P (current_session_generation k))
      (receive : (a : AckKey) → Keeps P (mark_received a)) where
    module _ (from : NetworkEndpoint) (issuer : Str) (packet : Bytes) (answer : Option Str) where
      Keeps-arm :
          (o : Option ParsedPacket) (k : NetworkEndpointKey) (g : ℕ)
          → ((n : ℕ) → o ≡ some (ack_complete n) → Keeps P (complete_pending_ack (k, (g, n))))
          → Keeps P (arm o k g from issuer packet answer)
      unfolding arm
      Keeps-arm none k g complete = Keeps-hand_over from issuer packet
      Keeps-arm (some p) k g complete =
          Keeps-dispatch_parsed from issuer answer p _ _ (λ n e. complete n (ap some e))
            (λ n. receive (k, (g, n)))

      pub Keeps-dispatch :
          ((k : NetworkEndpointKey) (g n : ℕ)
            → get_key from ≡ key k
            → parse_packet packet ≡ some (ack_complete n)
            → Keeps P (complete_pending_ack (k, (g, n))))
          → Keeps P (dispatch_inbound_packet from issuer packet answer)
      unfolding dispatch_inbound_packet endpoint_key
      Keeps-dispatch complete = Keeps-key_result P (get_key from) _ (λ k e.
          Keeps-bind P _ _ (generation k)
            (λ g. Keeps-arm (parse_packet packet) k g (λ n. complete k g n e)))

    module _ (Session : NetworkEndpoint → Type 0) (Packet : NetworkEndpoint → Bytes → Type 0)
        (keep : (e : NetworkEndpoint) → Session e → Keeps P (handle_new_dtls_session e))
        (complete : (from : NetworkEndpoint) (packet : Bytes)
          → Packet from packet
          → (k : NetworkEndpointKey) (g n : ℕ) → get_key from ≡ key k
          → parse_packet packet ≡ some (ack_complete n)
          → Keeps P (complete_pending_ack (k, (g, n)))) where
      -- With what a new session keeps and what an acknowledgement keeps, where they are allowed.
      pub run_induction :
          (es : List Event) (t : Transport) → All (Meets Session Packet) es → P t → P (run t es)
      unfolding run step
      run_induction [] t a h = h
      run_induction (packet_from from issuer packet answer ∷ es) t a h =
          run_induction es _ a.1
            ((Keeps-dispatch from issuer packet answer (complete from packet a.0)).at t h)
      run_induction (new_session e ∷ es) t a h = run_induction es _ a.1 ((keep e a.0).at t h)
