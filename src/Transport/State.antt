-- ===== src/Transport/State.antt =====
-- The state of `DtlsReliablePacketTransport`, and its steps that touch one lock each. A step returns
-- the state also beside an error, since what was written before the error stays written.
use bingle_rust.Base.{
  ℕ, ◌+◌, ◌%◌, ◌^◌, Bool, true, false, not, Option, none, some, List, ◌∷◌, ◌==◌, if◌then◌else◌,
}
use bingle_rust.Base.Eq.{◌=?◌, nat_eq, pair_eq}
use bingle_rust.Base.Map.{Map, get, insert, remove, retain_keys, contains_key}
use bingle_rust.Base.Lock.{Mutex, lock, write}
use bingle_rust.Base.Str.{Str}
use bingle_rust.Net.Endpoint.{
  NetworkEndpoint, NetworkEndpointKey, KeyOutcome, key, unset, incomplete, get_key, key_eq,
}
use bingle_rust.Turn.ChannelData.{Bytes}

-- The errors, with what their texts hold. `dtls` and `handler` are errors of other code.
pub data Error : Type 0 where
  lock_failed : Error
  key_unavailable : Error
  too_long : ℕ → ℕ → Error
  dtls : Str → Error
  handler : Str → Error
  no_ack : ℕ → ℕ → Error

pub data Result {ℓ} (A : Type ℓ) : Type ℓ where
  ok : A → Result A
  err : Error → Result A
  panic : Result A

-- What the transport does to the outside: a packet given to DTLS, a block given to the handler, a
-- peer forgotten.
pub data Effect : Type 0 where
  sent : NetworkEndpoint → Bytes → Effect
  delivered : NetworkEndpoint → Str → Bytes → Effect
  forgot : NetworkEndpoint → Effect

-- `PacketTransportHandleMessage`.
abbrev pub Handler : Type 0
Handler = NetworkEndpoint → Str → Bytes → Result (Option Bytes)

-- `(NetworkEndpointKey, SessionGeneration, u16)`.
abbrev pub AckKey : Type 0
AckKey = NetworkEndpointKey × (ℕ × ℕ)

-- `completed` holds the waiters whose flag is set; `next_waiter` numbers the waiters that `send`
-- allocates; `effects` is the record of what was done, the latest first.
pub record Transport : Type 0 where
  pub mtu : ℕ
  pub retry_delays : Mutex (List ℕ)
  pub handle_message : Mutex (Option Handler)
  pub next_tx_id : Mutex ℕ
  pub endpoint_sessions : Mutex (Map NetworkEndpointKey ℕ)
  pub pending_acks : Mutex (Map AckKey ℕ)
  pub received_single_blocks : Mutex (Map AckKey (Unit {0}))
  pub completed : Map ℕ (Unit {0})
  pub next_waiter : ℕ
  pub effects : List Effect

abbrev pub M : Type 0 → Type 0
M A = Transport → Result A × Transport

abbrev continue : {A B : Type 0} → Result A → (A → M B) → M B
continue (ok a) f t = f a t
continue (err e) f t = (err e, t)
continue panic f t = (panic, t)

infixl 5 ◌>>=◌ ◌>>◌
abbrev pub ◌>>=◌ : {A B : Type 0} → M A → (A → M B) → M B
◌>>=◌ m f t = let (r, t') = m t in continue r f t'

abbrev pub ◌>>◌ : {B : Type 0} → M (Unit {0}) → M B → M B
m >> k = m >>= λ _. k

abbrev pub pure : {A : Type 0} → A → M A
pure a t = (ok a, t)

abbrev pub raise : {A : Type 0} → Error → M A
raise e t = (err e, t)

-- `lock().map_err(…)?`.
abbrev pub locked : {A : Type 0} → (Transport → Mutex A) → M A
locked field t = elim (lock (field t)) [ none ↦ (err lock_failed, t) | some a ↦ (ok a, t) ]

abbrev pub effect : Effect → M (Unit {0})
effect e t = (ok tt, record t { effects = e ∷ t.effects })

-- Generations are u64 and skip 0 when they wrap.
unfoldable pub next_session_generation : ℕ → ℕ
next_session_generation current = let next = (current + 1) % 2 ^ 64 in if next == 0 then 1 else next

abbrev pub key_result : KeyOutcome → Result NetworkEndpointKey
key_result (key k) = ok k
key_result unset = err key_unavailable
key_result incomplete = panic

unfoldable pub endpoint_key : NetworkEndpoint → M NetworkEndpointKey
endpoint_key endpoint t = (key_result (get_key endpoint), t)

-- `sessions.entry(key).or_insert(0)`.
unfoldable pub current_session_generation : NetworkEndpointKey → M ℕ
current_session_generation k = do
  sessions ← locked (λ t. t.endpoint_sessions)
  elim (get sessions k) [
    | some generation ↦ pure generation
    | none ↦ λ t.
        (ok 0, record t { endpoint_sessions = write t.endpoint_sessions (insert k 0 sessions) })
  ]

-- The first block of `handle_new_dtls_session`.
unfoldable pub advance_generation : NetworkEndpointKey → M (Unit {0})
unfolding next_session_generation
advance_generation k = do
  sessions ← locked (λ t. t.endpoint_sessions)
  let current : ℕ = elim (get sessions k) [ some g ↦ g | none ↦ 0 ]
  λ t. (
    ok tt,
    record t {
      endpoint_sessions =
          write t.endpoint_sessions (insert k (next_session_generation current) sessions);
    },
  )

unfoldable pub drop_pending : NetworkEndpointKey → M (Unit {0})
drop_pending k = do
  pending ← locked (λ t. t.pending_acks)
  λ t. (
    ok tt,
    record t {
      pending_acks = write t.pending_acks (retain_keys (λ (a : AckKey). not (a.0 =? k)) pending);
    },
  )

unfoldable pub drop_received : NetworkEndpointKey → M (Unit {0})
drop_received k = do
  received ← locked (λ t. t.received_single_blocks)
  λ t. (
    ok tt,
    record t {
      received_single_blocks =
          write t.received_single_blocks (retain_keys (λ (a : AckKey). not (a.0 =? k)) received);
    },
  )

-- The rest of it, for the key of the peer.
unfoldable pub reset_session : NetworkEndpointKey → M (Unit {0})
reset_session k = do advance_generation k; drop_pending k; drop_received k

unfoldable pub handle_new_dtls_session : NetworkEndpoint → M (Unit {0})
handle_new_dtls_session endpoint = do k ← endpoint_key endpoint; reset_session k

-- `next_tx_id`: the number, and the counter wraps at u16.
unfoldable pub take_tx_id : M ℕ
take_tx_id = do
  tx_id ← locked (λ t. t.next_tx_id)
  λ t. (ok tx_id, record t { next_tx_id = write t.next_tx_id ((tx_id + 1) % 65536) })

unfoldable pub register_pending_ack : AckKey → M ℕ
register_pending_ack ack_key = do
  pending ← locked (λ t. t.pending_acks)
  λ t. (
    ok t.next_waiter,
    record t {
      pending_acks = write t.pending_acks (insert ack_key t.next_waiter pending);
      next_waiter = t.next_waiter + 1;
    },
  )

unfoldable pub clear_pending_ack : AckKey → M (Unit {0})
clear_pending_ack ack_key = do
  pending ← locked (λ t. t.pending_acks)
  λ t. (ok tt, record t { pending_acks = write t.pending_acks (remove ack_key pending) })

-- The waiter leaves the map and its flag is set; the result says whether there was one.
unfoldable pub complete_pending_ack : AckKey → M Bool
complete_pending_ack ack_key = do
  pending ← locked (λ t. t.pending_acks)
  elim (get pending ack_key) [
    | none ↦ pure false
    | some waiter ↦ λ t. (
      ok true,
      record t {
        pending_acks = write t.pending_acks (remove ack_key pending);
        completed = insert waiter tt t.completed;
      },
    )
  ]

-- `delivered.insert(key)`, which says whether the key is new.
unfoldable pub mark_received : AckKey → M Bool
mark_received ack_key = do
  received ← locked (λ t. t.received_single_blocks)
  λ t. (
    ok (not (contains_key received ack_key)),
    record t {
      received_single_blocks = write t.received_single_blocks (insert ack_key tt received);
    },
  )
