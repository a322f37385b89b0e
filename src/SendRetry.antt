-- ===== src/SendRetry.antt =====
-- bingle_local/src/api/send_retry.rs: which failures show that a peer is offline, and for how long a
-- peer that was found offline is not tried.
pub mod Offline
mod Examples
use bingle_rust.Base.{ℕ, ◌+◌, Bool, true, false, none, some, [], ltb}
use bingle_rust.Base.Map.{Map, get, insert, remove, retain_values}
use bingle_rust.Base.Str.{Str, str_eq}

-- `SendFailureKind` of bingle_core/src/api/bingle_api.rs.
pub data SendFailureKind : Type 0 where
  handle_not_found : SendFailureKind
  handle_lookup_failed : SendFailureKind
  recipient_not_advertised : SendFailureKind
  invalid_recipient_id : SendFailureKind
  no_relay_available : SendFailureKind
  relay_allocation_failed : SendFailureKind
  peer_unreachable : SendFailureKind
  no_response : SendFailureKind
  malformed_advert : SendFailureKind
  protocol_error : SendFailureKind
  not_ready : SendFailureKind
  unknown : SendFailureKind

unfoldable pub indicates_peer_offline : SendFailureKind → Bool
indicates_peer_offline peer_unreachable = true
indicates_peer_offline relay_allocation_failed = true
indicates_peer_offline recipient_not_advertised = true
indicates_peer_offline no_response = true
indicates_peer_offline _ = false

pub record OfflineWindow : Type 0 where
  pub window : ℕ
  pub until : Map Str ℕ

abbrev pub new : ℕ → OfflineWindow
new window = record { window = window; until = [] }

unfoldable pub mark_offline : Str → ℕ → OfflineWindow → OfflineWindow
mark_offline recipient now w = record w {
  until = insert recipient (now + w.window) (retain_values (ltb now) w.until);
}

unfoldable pub is_offline : Str → ℕ → OfflineWindow → Bool
is_offline recipient now w = elim (get w.until recipient) [
  | none ↦ false
  | some deadline ↦ ltb now deadline
]

unfoldable pub clear : Str → OfflineWindow → OfflineWindow
clear recipient w = record w { until = remove recipient w.until }
