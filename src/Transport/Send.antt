-- ===== src/Transport/Send.antt =====
-- `PacketTransport::send`: a data packet is sent, and sent again after each delay of the schedule
-- until its acknowledgement comes; in the end the peer is forgotten.
pub mod Prefix
pub mod Silence
pub mod Unacked
pub mod Awaits
pub mod Acked
use bingle_rust.Base.{
  ℕ, ◌+◌, ◌<◌, Bool, true, false, Option, none, some, List, [], ◌∷◌, ltb, length, if◌then◌else◌,
}
use bingle_rust.Base.Eq.{nat_eq}
use bingle_rust.Base.Map.{contains_key}
use bingle_rust.Base.Lock.{lock}
use bingle_rust.Base.Str.{Str}
use bingle_rust.Net.Endpoint.{NetworkEndpoint}
use bingle_rust.Turn.ChannelData.{Bytes}
use bingle_rust.Transport.Packet.{build_data_single_packet, frpt_header_len}
use bingle_rust.Transport.State.{
  Transport, M, Result, ok, err, panic, ◌>>=◌, ◌>>◌, pure, raise, Error, too_long, no_ack, Effect,
  forgot, effect, AckKey, endpoint_key, current_session_generation, take_tx_id,
  register_pending_ack, clear_pending_ack,
}
use bingle_rust.Transport.Inbound.{Event, run, dtls_send}

-- What happens while `send` runs. During wait number i, `during i` reaches the transport on the DTLS
-- thread; `resend i` is what DTLS answers to the packet that is sent after that wait.
pub record Schedule : Type 0 where
  pub first : Option Str
  pub during : ℕ → List Event
  pub resend : ℕ → Option Str

-- The wait ends at once when the waiter's flag is set, and by timeout otherwise.
unfoldable pub wait_for_ack_complete_with_timeout : ℕ → List Event → M Bool
wait_for_ack_complete_with_timeout waiter events t =
    let t' = run t events in (ok (contains_key t'.completed waiter), t')

-- A failing clean-up is only logged, and so is a failing send passed on after it.
unfoldable pub clear_and_fail : {A : Type 0} → AckKey → Error → M A
clear_and_fail ack_key e t = (err e, (clear_pending_ack ack_key t).1)

-- What follows a send: its error is returned once the pending acknowledgement is cleared.
unfoldable pub after_send : AckKey → Result (Unit {0}) → M (Unit {0})
after_send ack_key (ok done) t = (ok tt, t)
after_send ack_key (err e) t = clear_and_fail ack_key e t
after_send ack_key panic t = (panic, t)

unfoldable pub send_or_clear : AckKey → NetworkEndpoint → Bytes → Option Str → M (Unit {0})
unfolding after_send
send_or_clear ack_key to packet answer t =
    let (r, t') = dtls_send to packet answer t in after_send ack_key r t'

unfoldable pub send_again_if : Bool → AckKey → NetworkEndpoint → Bytes → Option Str → M (Unit {0})
send_again_if true ack_key to packet answer = send_or_clear ack_key to packet answer
send_again_if false ack_key to packet answer = pure tt

-- The loop over the delays that are left, from attempt i of n on; the result says whether the
-- acknowledgement came. The lengths of the delays are read by no branch.
unfoldable pub attempts : Schedule → AckKey → NetworkEndpoint → Bytes → ℕ → ℕ → ℕ → List ℕ → M Bool
attempts s ack_key to packet waiter n i [] = pure false
attempts s ack_key to packet waiter n i (delay ∷ delays) = do
  acked ← wait_for_ack_complete_with_timeout waiter (s.during i)
  if acked then pure true else do
    send_again_if (ltb (i + 1) n) ack_key to packet (s.resend i)
    attempts s ack_key to packet waiter n (i + 1) delays

-- `self.retry_delays.lock().unwrap()`.
unfoldable pub schedule_delays : M (List ℕ)
schedule_delays t = elim (lock t.retry_delays) [ none ↦ (panic, t) | some ds ↦ (ok ds, t) ]

-- After the loop: nothing, or the pending acknowledgement cleared, the peer forgotten and an error.
unfoldable pub finish : AckKey → NetworkEndpoint → ℕ → ℕ → Bool → M (Unit {0})
finish ack_key to n tx_id true = pure tt
finish ack_key to n tx_id false = do
  λ t. (ok tt, (clear_pending_ack ack_key t).1)
  effect (forgot to)
  raise (no_ack n tx_id)

-- The packet is registered: it is sent, awaited and sent again.
unfoldable pub send_registered : Schedule → NetworkEndpoint → Bytes → AckKey → ℕ → M (Unit {0})
send_registered s to packet ack_key waiter = do
  send_or_clear ack_key to packet s.first
  delays ← schedule_delays
  acked ← attempts s ack_key to packet waiter (length delays) 0 delays
  finish ack_key to (length delays) ack_key.1.1 acked

-- `send` once the block fits.
unfoldable pub send_block : Schedule → NetworkEndpoint → Bytes → M (Unit {0})
send_block s to block = do
  k ← endpoint_key to
  generation ← current_session_generation k
  tx_id ← take_tx_id
  let ack_key : AckKey = (k, (generation, tx_id))
  waiter ← register_pending_ack ack_key
  send_registered s to (build_data_single_packet tx_id block) ack_key waiter

unfoldable pub send : Schedule → NetworkEndpoint → Bytes → M (Unit {0})
unfolding send_block
send s to block t =
    if ltb t.mtu (length block + frpt_header_len)
    then (err (too_long (length block) t.mtu), t)
    else send_block s to block t
