-- ===== src/Relays/Cache/Sort.antt =====
-- The order of the relays in the cache, by their ids.
use bingle_rust.Base.{List}
use bingle_rust.Base.Str.{Str}
use bingle_rust.Base.Order
use bingle_rust.Relays.Cache.{RelayInfo}

abbrev pub relay_key : RelayInfo → Str
relay_key r = r.id

-- One relay does not come after another by its id.
abbrev pub NotAfter : RelayInfo → RelayInfo → Type 0
NotAfter = Order.NotAfter relay_key

abbrev pub IsOrdered : List RelayInfo → Type 0
IsOrdered = Order.IsOrdered relay_key

-- No relay of the list has the id.
abbrev pub IsAbsent : Str → List RelayInfo → Type 0
IsAbsent = Order.IsAbsent relay_key

abbrev pub IsUnique : List RelayInfo → Type 0
IsUnique = Order.IsUnique relay_key
