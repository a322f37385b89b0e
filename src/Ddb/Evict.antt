-- ===== src/Ddb/Evict.antt =====
-- Relays that are no longer allowed leave the database: `relays_to_evict` and
-- `evict_disallowed_relays` of bingle_core/src/ddb/mod.rs. The permission that the chain holds is an
-- argument; `none` is unknown.
pub mod Disallowed
use bingle_rust.Base.{ℕ, Bool, false, not, Option, none, some, List, [], ◌∷◌, retain, if◌then◌else◌}
use bingle_rust.Base.Eq.{◌=?◌}
use bingle_rust.Base.Str.{Str, str_eq}
use bingle_rust.Base.Lock.{Mutex, lock, write}
use bingle_rust.Ddb.{InMemoryDdbBackend, make_epoch_info, delete}

unfoldable pub is_disallowed : Option Bool → Bool
is_disallowed none = false
is_disallowed (some b) = not b

unfoldable pub relays_to_evict : List Str → Str → (Str → Option Bool) → List Str
relays_to_evict relay_ids my_id permission =
    retain (λ (id : Str). is_disallowed (permission id))
      (retain (λ (id : Str). not (id =? my_id)) relay_ids)

unfoldable pub delete_each : List Str → InMemoryDdbBackend → InMemoryDdbBackend
delete_each [] b = b
delete_each (id ∷ rest) b = delete_each rest (delete id b)

unfoldable pub evict_disallowed_relays :
    Mutex InMemoryDdbBackend → ℕ → Str → (Str → Option Bool) → Mutex InMemoryDdbBackend × List Str
evict_disallowed_relays backend now my_id permission = elim (lock backend) [
  | none ↦ (backend, [])
  | some b ↦
      let evict = relays_to_evict (make_epoch_info b now).0 my_id permission in
      (write backend (delete_each evict b), evict)
]
