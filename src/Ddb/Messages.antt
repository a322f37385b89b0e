-- ===== src/Ddb/Messages.antt =====
-- The dump of the database to another relay: `handle_init` of bingle_core/src/ddb/mod.rs, with the
-- messages of bingle_core/src/messages/types.rs that it sends.
use bingle_rust.Base.{ℕ, Option, List, [], ◌∷◌, length}
use bingle_rust.Base.Str.{Str}
use bingle_rust.Base.Order.{sort_by}
use bingle_rust.Ddb.Record.{AdvertRecord}
use bingle_rust.Ddb.{InMemoryDdbBackend, live_records, advert_id}

-- The fields that are not constant.
pub data Sent : Type 0 where
  init_response : ℕ → Option Str → Sent
  dump_resolve : AdvertRecord → Sent

unfoldable pub dumps : List AdvertRecord → List Sent
dumps [] = []
dumps (r ∷ rest) = dump_resolve r ∷ dumps rest

-- What is sent to the endpoint and user of the request, in order. Failures are not looked at.
unfoldable pub handle_init : InMemoryDdbBackend → ℕ → Option Str → List Sent
handle_init b now response_tag =
    let records = sort_by advert_id (live_records b now) in
    init_response (length records) response_tag ∷ dumps records
