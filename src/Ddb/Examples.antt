-- ===== src/Ddb/Examples.antt =====
-- The theorems about the database at concrete inputs.
use bingle_rust.Base.{◌≡◌, ◌↔◌, refl, true, false, Bool, none, some, Option, List, [], ◌∷◌, arith}
use bingle_rust.Base.Eq.{option_beq}
use bingle_rust.Base.Lock
use bingle_rust.Base.Lock.{Mutex}
use bingle_rust.Base.Str.{Str, str_beq}
use bingle_rust.Net.{sock4}
use bingle_rust.Ddb.Record.{AdvertRecord, is_relay_record, new_unsigned}
use bingle_rust.Ddb.{
  InMemoryDdbBackend, StoredRecord, with_advert_ttl, lookup, make_epoch_info, is_expired,
}
use bingle_rust.Ddb.Store.{
  Change, upserts, deletes, sweeps, change_all, remember_all, remember, seen, Lasts,
}
use bingle_rust.Ddb.Store.Refines.{change_all-lookup}
use bingle_rust.Ddb.Store.Sound.{change_all-IsSound}
use bingle_rust.Ddb.Epoch.{IsEpoch}
use bingle_rust.Ddb.Epoch.Info.{make_epoch_info-IsEpoch}
use bingle_rust.Ddb.Evict.{evict_disallowed_relays}
use bingle_rust.Ddb.Evict.Disallowed.{IsEviction, evict_disallowed_relays-IsEviction}
use bingle_rust.Ddb.Adverts.{ip, relay}
use bingle_rust.Ddb.Adverts.Refresh.{
  Event, notes, takes, starts_sweep, sweeps as sweeps_now, happen_all, wish_all, arranged, Grants,
  happen_all-Grants,
}

abbrev relay_advert : Str → AdvertRecord
relay_advert id =
    new_unsigned id (some (record { host = b'h' ∷ []; port = 4000 })) (some true) none none []

abbrev client_advert : Str → AdvertRecord
client_advert id = new_unsigned id none (some false) (some (b'B' ∷ [])) none []

-- Two relays and a client, whose advert is swept, and a relay that leaves.
abbrev changes : List Change
changes =
    upserts (relay_advert (b'B' ∷ [])) 10
    ∷ upserts (client_advert (b'C' ∷ [])) 20
    ∷ upserts (relay_advert (b'A' ∷ [])) 30
    ∷ sweeps 700
    ∷ upserts (relay_advert (b'D' ∷ [])) 710
    ∷ deletes (b'D' ∷ [])
    ∷ []

abbrev start : InMemoryDdbBackend
start = record (with_advert_ttl (some 600)) { own_id = some (b'A' ∷ []) }

change_all-lookup_example :
    (lookup (change_all changes start) 800 (b'A' ∷ []) ≡ some (relay_advert (b'A' ∷ []))) ↔ (
      (s : StoredRecord) × (remember_all changes (λ i. none) (b'A' ∷ []) ≡ some s)
      × (s.advert ≡ relay_advert (b'A' ∷ []))
      × Lasts (some 600) (some (b'A' ∷ [])) 800 s)
change_all-lookup_example =
    change_all-lookup changes (some 600) (some (b'A' ∷ [])) 800 (b'A' ∷ [])
      (relay_advert (b'A' ∷ [])) (tt, (tt, (tt, (omega arith, (tt, (tt, tt))))))

-- The advert of the client is remembered, and cannot be seen.
client_lapsed : seen start 800 (remember_all changes (λ i. none) (b'C' ∷ [])) ≡ none
unfolding seen remember_all remember str_beq is_expired is_relay_record option_beq
client_lapsed = refl

make_epoch_info-IsEpoch_example :
    IsEpoch
      (change_all changes start)
      800
      (make_epoch_info (change_all changes start) 800).0
      (make_epoch_info (change_all changes start) 800).1
make_epoch_info-IsEpoch_example = make_epoch_info-IsEpoch changes (some 600) (some (b'A' ∷ [])) 800

abbrev backend : Mutex InMemoryDdbBackend
backend = Lock.new (change_all changes start)

-- Only the second relay is forbidden.
abbrev permission : Str → Option Bool
permission id = some (str_beq id (b'A' ∷ []))

evict_disallowed_relays-IsEviction_example :
    IsEviction backend.inner
      (evict_disallowed_relays backend 800 (b'A' ∷ []) permission).0.inner
      800
      (b'A' ∷ [])
      permission
      (evict_disallowed_relays backend 800 (b'A' ∷ []) permission).1
evict_disallowed_relays-IsEviction_example =
    evict_disallowed_relays-IsEviction backend 800 (b'A' ∷ []) permission refl
      (change_all-IsSound changes start tt)

abbrev events : List Event
events =
    notes (ip (sock4 1 2) false)
    ∷ starts_sweep (some (b'A' ∷ b'.' ∷ []))
    ∷ sweeps_now 800
    ∷ notes (relay (b'B' ∷ []) none)
    ∷ takes
    ∷ notes (ip (sock4 1 2) true)
    ∷ []

happen_all-Grants_example :
    Grants
      (some 600)
      (wish_all events (none, false))
      (happen_all events (arranged (some 600) (none, false) (Lock.new none) backend))
happen_all-Grants_example =
    happen_all-Grants events (some 600) (none, false) (Lock.new none) backend
