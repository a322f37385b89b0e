-- ===== src/Ddb/Store/Refines.antt =====
-- The database shows what the store of latest adverts shows (bingle_core/src/ddb/mod.rs).
use bingle_rust.Base.{
  ℕ, ◌≤◌, ◌↔◌, ap, subst, ◌≡◌, refl, sym, ◌∙◌, true, false, Option, none, some, List, [], ◌∷◌, All,
  retain, if◌then◌else◌, arith, Bool-cases, inl, inr,
}
use mathlib.Core.Option.{none-ne-some}
use bingle_rust.Ddb.Record.{AdvertRecord, is_relay_record}
use bingle_rust.Base.Eq.{◌=?◌, option_eq, option_beq_iff}
use bingle_rust.Base.Str.{Str, str_eq}
use bingle_rust.Base.Map
use bingle_rust.Base.Map.{Map, get-insert, get-remove}
use bingle_rust.Ddb.{
  InMemoryDdbBackend, StoredRecord, values, adverts, ids, upsert, delete, sweep_expired, is_expired,
  lookup, with_advert_ttl,
}
use bingle_rust.Ddb.Store.{
  Change, upserts, deletes, sweeps, change, change_all, Store, remember, remember_all, seen,
  NotLater, IsSound, Lasts, unlimited, of_relay, of_own, young,
}
use bingle_rust.Ddb.Store.Sound.{get-remove_each, contains-ids, change-IsSound}

-- What is expired stays so.
is_expired-later :
    (b : InMemoryDdbBackend) (at now : ℕ) (s : StoredRecord)
    → at ≤ now
    → is_expired b at s ≡ true
    → is_expired b now s ≡ true
unfolding is_expired
is_expired-later b at now s h e = ground arith

seen_swept :
    (b : InMemoryDdbBackend) (at now : ℕ) (o : Option StoredRecord)
    → at ≤ now
    → seen b now (if elim o [ none ↦ false | some s ↦ is_expired b at s ] then none else o)
      ≡ seen b now o
unfolding seen
seen_swept b at now none l = refl
seen_swept b at now (some s) l = ground (arith, is_expired-later b at now s l)

-- A sweep takes what cannot be seen any more.
seen-sweep :
    (b : InMemoryDdbBackend) (at now : ℕ) (id : Str)
    → IsSound b.entries
    → at ≤ now
    → seen b now (Map.get (sweep_expired at b).0.entries id) ≡ seen b now (Map.get b.entries id)
unfolding sweep_expired
seen-sweep b at now id h l =
    rw (get-remove_each (ids (adverts (retain (is_expired b at) (values b.entries)))) b.entries id)
      (rw (contains-ids (is_expired b at) b.entries id h)
        (seen_swept b at now (Map.get b.entries id) l))

change-seen :
    (c : Change) (b : InMemoryDdbBackend) (f : Store) (now : ℕ)
    → IsSound b.entries
    → NotLater now c
    → ((id : Str) → seen b now (Map.get b.entries id) ≡ seen b now (f id))
    → (id : Str) → seen b now (Map.get (change c b).entries id) ≡ seen b now (remember c f id)
unfolding change upsert delete remember
change-seen (upserts advert at) b f now s l h id =
    rw (get-insert advert.id id (record { advert = advert; received = at }) b.entries)
      (elim (Bool-cases (advert.id =? id)) [ inl e ↦ rw e refl | inr e ↦ rw e (h id) ])
change-seen (deletes gone) b f now s l h id =
    rw (get-remove gone id b.entries)
      (elim (Bool-cases (gone =? id)) [ inl e ↦ rw e refl | inr e ↦ rw e (h id) ])
change-seen (sweeps at) b f now s l h id = seen-sweep b at now id s l ∙ h id

-- No change touches what decides whether an advert is seen.
seen-change :
    (c : Change) (b : InMemoryDdbBackend) (now : ℕ) (o : Option StoredRecord)
    → seen (change c b) now o ≡ seen b now o
unfolding change upsert delete sweep_expired seen is_expired
seen-change (upserts advert at) b now none = refl
seen-change (upserts advert at) b now (some s) = refl
seen-change (deletes id) b now none = refl
seen-change (deletes id) b now (some s) = refl
seen-change (sweeps at) b now none = refl
seen-change (sweeps at) b now (some s) = refl

change_all-seen :
    (changes : List Change) (b : InMemoryDdbBackend) (f : Store) (now : ℕ)
    → IsSound b.entries
    → All (NotLater now) changes
    → ((id : Str) → seen b now (Map.get b.entries id) ≡ seen b now (f id))
    → (id : Str) → lookup (change_all changes b) now id ≡ seen b now (remember_all changes f id)
unfolding change_all remember_all lookup seen
change_all-seen [] b f now s l h id = h id
change_all-seen (c ∷ rest) b f now s l h id =
    change_all-seen rest (change c b) (remember c f) now (change-IsSound c b s) l.1
      (λ i.
        seen-change c b now (Map.get (change c b).entries i)
        ∙ (change-seen c b f now s l.0 h i ∙ sym (seen-change c b now (remember c f i))))
      id
    ∙ seen-change c b now (remember_all rest (remember c f) id)

relay_iff : (r : AdvertRecord) → is_relay_record r ≡ true → r.am_relay ≡ some true
unfolding is_relay_record
relay_iff r h = ground (arith, h)

not_expired :
    (entries : Map Str StoredRecord) (advert_ttl : Option ℕ) (own_id : Option Str) (now : ℕ)
    (s : StoredRecord)
    → is_expired (record { entries = entries; advert_ttl = advert_ttl; own_id = own_id }) now s
      ≡ false
    → Lasts advert_ttl own_id now s
unfolding is_expired
not_expired entries none own_id now s h = unlimited refl
not_expired entries (some ttl) own_id now s h = elim (Bool-cases (is_relay_record s.advert)) [
  | inl relays ↦ of_relay (relay_iff s.advert relays)
  | inr client ↦ elim (Bool-cases (own_id =? some s.advert.id)) [
    | inl own ↦ of_own ((option_beq_iff own_id (some s.advert.id)).0 own)
    | inr other ↦ young ttl refl (ground (arith, h, client, other))
  ]
]

lasting :
    (entries : Map Str StoredRecord) (advert_ttl : Option ℕ) (own_id : Option Str) (now : ℕ)
    (s : StoredRecord)
    → Lasts advert_ttl own_id now s
    → is_expired (record { entries = entries; advert_ttl = advert_ttl; own_id = own_id }) now s
      ≡ false
unfolding is_expired is_relay_record
lasting entries advert_ttl own_id now s (unlimited e) = ground (arith, e)
lasting entries none own_id now s (of_relay e) = refl
lasting entries (some ttl) own_id now s (of_relay e) = ground (arith, e)
lasting entries none own_id now s (of_own e) = refl
lasting entries (some ttl) own_id now s (of_own e) =
    ground (arith, (option_beq_iff own_id (some s.advert.id)).1 e)
lasting entries advert_ttl own_id now s (young ttl e l) = ground (arith, e, l)

seen_some :
    (b : InMemoryDdbBackend) (now : ℕ) (s : StoredRecord) (advert : AdvertRecord)
    → (if is_expired b now s then none else some s.advert) ≡ some advert
    → (s.advert ≡ advert) × (is_expired b now s ≡ false)
seen_some b now s advert e = elim (Bool-cases (is_expired b now s)) [
  | inl gone ↦ absurd (ground (arith, e, gone))
  | inr there ↦ (ground (arith, e, there), there)
]

some_seen :
    (b : InMemoryDdbBackend) (now : ℕ) (s : StoredRecord)
    → is_expired b now s ≡ false
    → (if is_expired b now s then none else some s.advert) ≡ some s.advert
some_seen b now s e = rw e refl

-- What is not expired lasts, and the other way round.
is_expired-Lasts :
    (b : InMemoryDdbBackend) (now : ℕ) (s : StoredRecord)
    → (is_expired b now s ≡ false) ↔ Lasts b.advert_ttl b.own_id now s
is_expired-Lasts b now s = (
  not_expired b.entries b.advert_ttl b.own_id now s,
  lasting b.entries b.advert_ttl b.own_id now s,
)

shown_iff :
    (b : InMemoryDdbBackend) (now : ℕ) (o : Option StoredRecord) (advert : AdvertRecord)
    → (seen b now o ≡ some advert) ↔ (
        (s : StoredRecord) × (o ≡ some s) × (s.advert ≡ advert) × Lasts b.advert_ttl b.own_id now s)
unfolding seen
shown_iff b now none advert = (λ e. cc, λ p. absurd (none-ne-some p.0 p.1))
shown_iff b now (some s) advert = (
  λ e.
      let (same, lasts) = seen_some b now s advert e in
      (s, refl, same, (is_expired-Lasts b now s).0 lasts),
  λ p.
      let (x, e, same, lasts) = p in
      let back : x ≡ s = cc e in
      let here =
        (is_expired-Lasts b now s).1 (subst (Lasts b.advert_ttl b.own_id now) back lasts) in
      some_seen b now s here ∙ ap some (sym (ap (λ (r : StoredRecord). r.advert) back) ∙ same),
)

-- After any upserts, deletions and sweeps of a new database with a time to live and an own id,
-- where no sweep was later than now, a lookup now shows an advert exactly when it is the latest
-- advert of its node since the last deletion, as an abstract store keeps it that never sweeps, and
-- adverts do not expire, or it is the advert of a relay or of this node, or it was received less
-- than the time to live ago.
pub change_all-lookup :
    (changes : List Change) (advert_ttl : Option ℕ) (own_id : Option Str) (now : ℕ) (id : Str)
    (advert : AdvertRecord)
    → All (NotLater now) changes
    → let start = record (with_advert_ttl advert_ttl) { own_id = own_id } in
      (lookup (change_all changes start) now id ≡ some advert) ↔ (
        (s : StoredRecord) × (remember_all changes (λ i. none) id ≡ some s)
        × (s.advert ≡ advert)
        × Lasts advert_ttl own_id now s)
unfolding Map.get
change_all-lookup changes advert_ttl own_id now id advert l =
    let start = record (with_advert_ttl advert_ttl) { own_id = own_id } in
    let shown = shown_iff start now (remember_all changes (λ i. none) id) advert in
    let same = change_all-seen changes start (λ i. none) now tt l (λ i. refl) id in
    (λ e. shown.0 (sym same ∙ e), λ p. same ∙ shown.1 p)
