-- ===== src/Relays/Cache/Changes.antt =====
-- The relays of a cache stay in order, each id once, whatever is done to it.
use bingle_rust.Base.{
  ℕ, ◌≡◌, ◌⊎◌, inl, inr, sym, subst, true, false, not, List, [], ◌∷◌, ◌++◌, All, any, retain, arith,
  Bool-cases, Option-cases,
}
use Prim.Native.Nat.{Ordering}
use bingle_rust.Base.Eq.{◌=?◌}
use bingle_rust.Base.Lock.{write}
use bingle_rust.Base.Str.{Str, str_eq, cmp, cmp-eq_iff}
use bingle_rust.Relays.Cache.{
  RelayInfo, RelayInfoCache, new, sort_by_id, has_id, push, add_relay, replace_first, update_relay,
  delete_relay, replace_relays, clear_states, clear_state_cache,
}
use bingle_rust.Base.Members.{retain-IsOrdered, retain-IsUnique}
use bingle_rust.Base.Order.{In, sort_by-IsOrdered, sort_by-IsUnique}
use bingle_rust.Relays.Cache.Sort.{IsOrdered, IsUnique, relay_key}
use bingle_rust.Relays.Cache.Unique.{
  any-IsAbsent, push-IsUnique, replace_first_lem, clear_states-kept,
}

-- Each id comes before those behind it.
abbrev pub IsAscending : List RelayInfo → Type 0
IsAscending [] = Unit {0}
IsAscending (r ∷ rs) = ((q : RelayInfo) → In q rs → cmp r.id q.id ≡ Ordering.lt) × IsAscending rs

-- A change of the cache.
pub data Change : Type 0 where
  adds : RelayInfo → Change
  updates : RelayInfo → ℕ → Change
  deletes : Str → Change
  replaces : List RelayInfo → Change
  clears : Change

-- A list that replaces all relays has each id once.
abbrev pub ReplacesUnique : Change → Type 0
ReplacesUnique (replaces rs) = IsUnique rs
ReplacesUnique _ = Unit {0}

abbrev pub change : Change → RelayInfoCache → RelayInfoCache
change (adds r) c = (add_relay r c).0
change (updates r now) c = (update_relay r now c).0
change (deletes id) c = (delete_relay id c).0
change (replaces rs) c = replace_relays rs c
change clears c = clear_state_cache c

unfoldable pub change_all : List Change → RelayInfoCache → RelayInfoCache
change_all [] c = c
change_all (x ∷ xs) c = change_all xs (change x c)

pub record IsKept (c : RelayInfoCache) : Type 0 where
  pub ordered : IsOrdered c.inner
  pub unique : IsUnique c.inner

-- A change that is the cache itself or a new list.
IsKept-of :
    (c d : RelayInfoCache)
    → (d ≡ c) ⊎ ((l : List RelayInfo) × (d ≡ write c l) × (IsOrdered l × IsUnique l))
    → IsKept c
    → IsKept d
IsKept-of c d (inl same) k = subst IsKept (sym same) k
IsKept-of c d (inr r) k = subst IsKept (sym r.1) (record { ordered = r.2.0; unique = r.2.1 })

change-IsKept :
    (x : Change) (c : RelayInfoCache) → ReplacesUnique x → IsKept c → IsKept (change x c)
unfolding add_relay update_relay delete_relay replace_relays clear_state_cache push
change-IsKept x c v k =
    IsKept-of c (change x c)
      (elim (Bool-cases c.poisoned) [
        | inl bad ↦ inl (poisoned x bad)
        | inr sound ↦ changed x v sound
      ])
      k
  where
    poisoned : (y : Change) → c.poisoned ≡ true → change y c ≡ c
    poisoned (adds r) bad = ground arith
    poisoned (updates r now) bad = ground arith
    poisoned (deletes id) bad = ground arith
    poisoned (replaces rs) bad = ground arith
    poisoned clears bad = ground arith

    changed :
        (y : Change)
        → ReplacesUnique y
        → c.poisoned ≡ false
        → (change y c ≡ c)
          ⊎ ((l : List RelayInfo) × (change y c ≡ write c l) × (IsOrdered l × IsUnique l))
    changed (adds r) v sound = elim (Bool-cases (any (has_id r.id) c.inner)) [
      | inl there ↦ inl (ground arith)
      | inr new_id ↦ inr (
        sort_by_id (c.inner ++ (r ∷ [])),
        ground arith,
        (
          sort_by-IsOrdered relay_key (c.inner ++ (r ∷ [])),
          sort_by-IsUnique relay_key (c.inner ++ (r ∷ []))
              (push-IsUnique r c.inner (any-IsAbsent r.id c.inner new_id) k.unique),
        ),
      )
    ]
    changed (updates r now) v sound =
        elim (Option-cases (replace_first (record r { last_updated = now }) c.inner)) [
          | inl missing ↦ inl (ground arith)
          | inr (l, e) ↦ inr (
            sort_by_id l,
            ground arith,
            (
              sort_by-IsOrdered relay_key l,
              sort_by-IsUnique relay_key l
                  (replace_first_lem (record r { last_updated = now }) c.inner l e k.unique).0,
            ),
          )
        ]
    changed (deletes id) v sound =
        let t = λ (r : RelayInfo). not (r.id =? id) in
        inr (
          retain t c.inner,
          ground arith,
          (
            retain-IsOrdered relay_key t c.inner k.ordered,
            retain-IsUnique relay_key t c.inner k.unique,
          ),
        )
    changed (replaces rs) v sound = inr (
      sort_by_id rs,
      ground arith,
      (sort_by-IsOrdered relay_key rs, sort_by-IsUnique relay_key rs v),
    )
    changed clears v sound =
        inr (clear_states c.inner, ground arith, clear_states-kept c.inner k.ordered k.unique)

change_all-IsKept :
    (xs : List Change) (c : RelayInfoCache)
    → All ReplacesUnique xs
    → IsKept c
    → IsKept (change_all xs c)
unfolding change_all
change_all-IsKept [] c v k = k
change_all-IsKept (x ∷ xs) c v k = change_all-IsKept xs (change x c) v.1 (change-IsKept x c v.0 k)

IsAscending-of : (rs : List RelayInfo) → IsOrdered rs → IsUnique rs → IsAscending rs
IsAscending-of [] o u = tt
IsAscending-of (r ∷ rs) o u = (
  (λ q i. let h = o.0 q i in let g = u.0 q i in ground (arith, h, g, cmp-eq_iff r.id q.id)),
  IsAscending-of rs o.1 u.1,
)

-- After any changes of a new, empty cache, by relays that are added, updated or deleted, by lists
-- of distinct ids that replace all relays, and by cleared states, the relays stand in strictly
-- ascending order of their ids, so that none stands twice.
pub change_all-IsAscending :
    (xs : List Change) → All ReplacesUnique xs → IsAscending (change_all xs (new [])).inner
change_all-IsAscending xs v =
    let k = change_all-IsKept xs (new []) v (record { ordered = tt; unique = tt }) in
    IsAscending-of (change_all xs (new [])).inner k.ordered k.unique
