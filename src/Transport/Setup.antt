-- ===== src/Transport/Setup.antt =====
-- A new transport, its settings, and the handler that `set_handle_message` installs.
use bingle_rust.Base.{ℕ, ◌*◌, ◌^◌, Option, none, some, List, [], ◌∷◌}
use bingle_rust.Base.Lock
use bingle_rust.Base.Lock.{lock, write}
use bingle_rust.Transport.State.{Transport, ok, panic, Handler, M}

-- Delays in nanoseconds.
abbrev pub default_retry_delays : List ℕ
default_retry_delays = 2 * 10 ^ 9 ∷ 4 * 10 ^ 9 ∷ 8 * 10 ^ 9 ∷ []

abbrev pub new : ℕ → Transport
new mtu = record {
  mtu = mtu;
  retry_delays = Lock.new default_retry_delays;
  handle_message = Lock.new none;
  next_tx_id = Lock.new 0;
  endpoint_sessions = Lock.new [];
  pending_acks = Lock.new [];
  received_single_blocks = Lock.new [];
  completed = [];
  next_waiter = 0;
  effects = [];
}

abbrev pub set_mtu : ℕ → Transport → Transport
set_mtu mtu t = record t { mtu = mtu }

unfoldable pub set_retry_delays : List ℕ → M (Unit {0})
set_retry_delays delays t = elim (lock t.retry_delays) [
  | none ↦ (panic, t)
  | some _ ↦ (ok tt, record t { retry_delays = write t.retry_delays delays })
]

unfoldable pub set_handle_message : Option Handler → Transport → Transport
set_handle_message handler t = elim (lock t.handle_message) [
  | none ↦ t
  | some _ ↦ record t { handle_message = write t.handle_message handler }
]

unfoldable pub get_handle_message : Transport → Option Handler
get_handle_message t = elim (lock t.handle_message) [ none ↦ none | some handler ↦ handler ]
