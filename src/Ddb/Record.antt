-- ===== src/Ddb/Record.antt =====
-- `AdvertRecord` and `InetSocketAddress` (bingle_core/src/ddb/advert_record.rs).
use bingle_rust.Base.{ℕ, Bool, false, Option, none, some}
use bingle_rust.Base.Str.{Str}

pub record InetSocketAddress : Type 0 where
  pub host : Str
  pub port : ℕ

pub record AdvertRecord : Type 0 where
  pub id : Str
  pub endpoint : Option InetSocketAddress
  pub am_relay : Option Bool
  pub relay_id : Option Str
  pub relay_sig : Option Str
  pub date : Str
  pub sig : Option Str

-- `am_relay.unwrap_or(false)`.
unfoldable pub is_relay_record : AdvertRecord → Bool
is_relay_record r = elim r.am_relay [ none ↦ false | some b ↦ b ]

abbrev pub new_unsigned :
    Str → Option InetSocketAddress → Option Bool → Option Str → Option Str → Str → AdvertRecord
new_unsigned id endpoint am_relay relay_id relay_sig date = record {
  id = id;
  endpoint = endpoint;
  am_relay = am_relay;
  relay_id = relay_id;
  relay_sig = relay_sig;
  date = date;
  sig = none;
}
