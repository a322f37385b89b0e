-- ===== src/Relays/Updater/Examples.antt =====
-- A selection among three relays, with the turns of its loop (bingle_core/src/relay/relay_updater.rs).
use bingle_rust.Base.{◌-◌, ◌^◌, ◌<◌, ◌≡◌, true, Option, none, some, List, [], ◌∷◌, ◌++◌, arith}
use bingle_rust.Base.Str.{Str}
use bingle_rust.Net.{SocketAddr, sock4}
use bingle_rust.Ddb.Record.{InetSocketAddress}
use bingle_rust.Relays.Cache
use bingle_rust.Relays.Cache.{RelayInfo, RelayInfoCache, RelayState, available, starting}
use bingle_rust.Relays.Updater.{DdbRelaysStatusResponse, range, select_indices, selection_order}
use bingle_rust.Relays.Updater.Select.{Turn}
use bingle_rust.Relays.Updater.Order.{selection_order_lem}

abbrev relay : Str → RelayInfo
relay id = record {
  id = id;
  address = some (sock4 1 1);
  is_root = true;
  state = none;
  ttl = none;
  last_updated = 0;
}

abbrev three : RelayInfoCache
three = Cache.new (relay (b'A' ∷ []) ∷ relay (b'B' ∷ []) ∷ relay (b'C' ∷ []) ∷ [])

abbrev status : RelayState → DdbRelaysStatusResponse
status s = record {
  responder_state = s;
  relay_ids = (b'B' ∷ []) ∷ [];
  relay_states = s ∷ [];
  relay_endpoints = some (record { host = []; port = 7 } ∷ []);
}

-- The first candidate fails, the second is starting, and the third is available.
abbrev turns : List Turn
turns =
    record { now = 0; received = some (0, none) }
    ∷ record { now = 1; received = none }
    ∷ record { now = 2; received = some (1, some (status starting)) }
    ∷ record { now = 3; received = some (2, some (status available)) }
    ∷ []

abbrev read : InetSocketAddress → Option SocketAddr
read e = some (sock4 2 e.port)

selection_order_lem_example :
    ((select_indices 3 (2 ^ 31)).0 < 3)
    × (selection_order 3 (2 ^ 31)
        ≡ range (select_indices 3 (2 ^ 31)).0 (3 - (select_indices 3 (2 ^ 31)).0)
          ++ range 0 (select_indices 3 (2 ^ 31)).0)
selection_order_lem_example = selection_order_lem 3 (2 ^ 31) (omega arith) (omega arith)
