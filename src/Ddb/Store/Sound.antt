-- ===== src/Ddb/Store/Sound.antt =====
-- Every change keeps each entry once, under the id of its advert (bingle_core/src/ddb/mod.rs).
use bingle_rust.Base.{
  ◌≡◌, refl, Bool, false, none, some, List, [], ◌∷◌, retain, if◌then◌else◌, arith, Bool-cases, inl,
  inr, subst,
}
use bingle_rust.Base.Eq.{◌=?◌}
use bingle_rust.Base.Str.{Str, str_eq, str_beq_iff}
use bingle_rust.Base.Sets.{contains}
use bingle_rust.Base.Map
use bingle_rust.Base.Map.{Map, get-insert, get-remove}
use bingle_rust.Ddb.{
  InMemoryDdbBackend, StoredRecord, values, adverts, ids, upsert, delete, remove_each,
  sweep_expired, is_expired,
}
use bingle_rust.Ddb.Store.{Change, upserts, deletes, sweeps, change, change_all, IsSound}

insert-IsSound :
    (id : Str) (s : StoredRecord) (m : Map Str StoredRecord)
    → s.advert.id ≡ id
    → IsSound m
    → IsSound (Map.insert id s m)
unfolding Map.insert Map.get
insert-IsSound id s [] e h = (e, refl, tt)
insert-IsSound id s ((k, t) ∷ m) e h = elim (Bool-cases (k =? id)) [
  | inl same ↦ rw same (e, subst (λ x. Map.get m x ≡ none) ((str_beq_iff k id).0 same) h.1, h.2)
  | inr other ↦ rw other (
    h.0,
    ground (arith, h.1, get-insert id k s m, str_beq_iff k id, str_beq_iff id k),
    insert-IsSound id s m e h.2,
  )
]

remove-IsSound : (id : Str) (m : Map Str StoredRecord) → IsSound m → IsSound (Map.remove id m)
unfolding Map.remove
remove-IsSound id [] h = tt
remove-IsSound id ((k, t) ∷ m) h = elim (Bool-cases (k =? id)) [
  | inl same ↦ rw same (remove-IsSound id m h.2)
  | inr other ↦ rw other (h.0, ground (arith, h.1, get-remove id k m), remove-IsSound id m h.2)
]

remove_each-IsSound :
    (gone : List Str) (m : Map Str StoredRecord) → IsSound m → IsSound (remove_each gone m)
unfolding remove_each
remove_each-IsSound [] m h = h
remove_each-IsSound (id ∷ rest) m h =
    remove_each-IsSound rest (Map.remove id m) (remove-IsSound id m h)

-- What is left of the entries.
pub get-remove_each :
    (gone : List Str) (m : Map Str StoredRecord) (id : Str)
    → Map.get (remove_each gone m) id ≡ (if contains gone id then none else Map.get m id)
unfolding remove_each contains
get-remove_each [] m id = refl
get-remove_each (g ∷ rest) m id =
    ground (arith, get-remove_each rest (Map.remove g m) id, get-remove g id m)

-- The ids of the values that pass a test.
pub contains-ids :
    (p : StoredRecord → Bool) (m : Map Str StoredRecord) (id : Str)
    → IsSound m
    → contains (ids (adverts (retain p (values m)))) id
      ≡ elim (Map.get m id) [ none ↦ false | some s ↦ p s ]
unfolding contains retain Map.get
contains-ids p [] id h = refl
contains-ids p ((k, s) ∷ m) id h =
    ground (arith, h, contains-ids p m id h.2, str_beq_iff s.advert.id id, str_beq_iff k id)

pub change-IsSound :
    (c : Change) (b : InMemoryDdbBackend) → IsSound b.entries → IsSound (change c b).entries
unfolding change upsert delete sweep_expired
change-IsSound (upserts advert now) b h =
    insert-IsSound advert.id (record { advert = advert; received = now }) b.entries refl h
change-IsSound (deletes id) b h = remove-IsSound id b.entries h
change-IsSound (sweeps now) b h =
    remove_each-IsSound (ids (adverts (retain (is_expired b now) (values b.entries)))) b.entries h

pub change_all-IsSound :
    (changes : List Change) (b : InMemoryDdbBackend)
    → IsSound b.entries
    → IsSound (change_all changes b).entries
unfolding change_all
change_all-IsSound [] b h = h
change_all-IsSound (c ∷ rest) b h = change_all-IsSound rest (change c b) (change-IsSound c b h)
