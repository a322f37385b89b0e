-- ===== src/Relays/Cache/Unique.antt =====
-- The functions on the cache's list keep each id once.
use bingle_rust.Base.{
  ◌≡◌, ◌≢◌, ◌⊎◌, inl, inr, refl, ap, sym, ◌∙◌, subst, false, none, some, List, [], ◌∷◌, ◌++◌, any,
  arith, Bool-cases, Option-cases,
}
use Prim.Native.Nat.{Ordering}
use bingle_rust.Base.Eq.{◌=?◌}
use bingle_rust.Base.Str.{Str, str_eq, str_beq_iff, cmp}
use bingle_rust.Relays.Cache.{RelayInfo, has_id, replace_first, clear_states}
use bingle_rust.Base.Order.{In}
use bingle_rust.Relays.Cache.Sort.{IsOrdered, IsAbsent, IsUnique}

pub any-IsAbsent : (id : Str) (rs : List RelayInfo) → any (has_id id) rs ≡ false → IsAbsent id rs
unfolding any
any-IsAbsent id [] h q i = absurd i
any-IsAbsent id (r ∷ rs) h q (inl same) =
    subst (λ (p : RelayInfo). p.id ≢ id) same (λ e. ground (arith, h, e, str_beq_iff r.id id))
any-IsAbsent id (r ∷ rs) h q (inr later) = any-IsAbsent id rs (ground (arith, h)) q later

push-In : (r q : RelayInfo) (rs : List RelayInfo) → In q (rs ++ (r ∷ [])) → In q rs ⊎ (r ≡ q)
push-In r q [] (inl same) = inr same
push-In r q [] (inr none_left) = absurd none_left
push-In r q (x ∷ xs) (inl same) = inl (inl same)
push-In r q (x ∷ xs) (inr later) = elim (push-In r q xs later) [
  | inl i ↦ inl (inr i)
  | inr same ↦ inr same
]

pub push-IsUnique :
    (r : RelayInfo) (rs : List RelayInfo)
    → IsAbsent r.id rs
    → IsUnique rs
    → IsUnique (rs ++ (r ∷ []))
push-IsUnique r [] a u = ((λ q i. absurd i), tt)
push-IsUnique r (x ∷ xs) a u = (
  (λ q i. elim (push-In r q xs i) [
    | inl before ↦ u.0 q before
    | inr same ↦ subst (λ (p : RelayInfo). p.id ≢ x.id) same (λ e. a x (inl refl) (sym e))
  ]),
  push-IsUnique r xs (λ q i. a q (inr i)) u.1,
)

-- Every id of the second list is one of the first.
abbrev IdsFrom : List RelayInfo → List RelayInfo → Type 0
IdsFrom rs l = (q : RelayInfo) → In q l → (p : RelayInfo) × In p rs × (p.id ≡ q.id)

IsUnique-cons :
    (r : RelayInfo) (rs l : List RelayInfo)
    → IsAbsent r.id rs
    → IsUnique l
    → IdsFrom rs l
    → IsUnique (r ∷ l)
IsUnique-cons r rs l a u from = ((λ q i e. let p = from q i in a p.0 p.1 (p.2 ∙ e)), u)

IdsFrom-cons :
    (r x : RelayInfo) (rs l : List RelayInfo)
    → r.id ≡ x.id
    → IdsFrom rs l
    → IdsFrom (r ∷ rs) (x ∷ l)
IdsFrom-cons r x rs l e from q (inl same) = (r, inl refl, e ∙ ap (λ (p : RelayInfo). p.id) same)
IdsFrom-cons r x rs l e from q (inr later) = let p = from q later in (p.0, inr p.1, p.2)

-- A relay for another with the same id keeps the ids.
pub replace_first_lem :
    (relay : RelayInfo) (rs l : List RelayInfo)
    → replace_first relay rs ≡ some l
    → IsUnique rs
    → IsUnique l × IdsFrom rs l
unfolding replace_first
replace_first_lem relay [] l e u = cc
replace_first_lem relay (r ∷ rs) l e u = elim (Bool-cases (r.id =? relay.id)) [
  | inl same ↦
      let at : relay ∷ rs ≡ l = ground (arith, e, same) in
      let id : r.id ≡ relay.id = (str_beq_iff r.id relay.id).0 same in
      let stays : IdsFrom rs rs = λ q i. (q, i, refl) in
      subst (λ (m : List RelayInfo). IsUnique m × IdsFrom (r ∷ rs) m) at
        (((λ q i f. u.0 q i (f ∙ sym id)), u.1), IdsFrom-cons r relay rs rs id stays)
  | inr other ↦ elim (Option-cases (replace_first relay rs)) [
    | inl missing ↦ absurd (ground (arith, e, other, missing))
    | inr (m, f) ↦
        let at : r ∷ m ≡ l = ground (arith, e, other, f) in
        let rest = replace_first_lem relay rs m f u.1 in
        subst (λ (n : List RelayInfo). IsUnique n × IdsFrom (r ∷ rs) n) at
          (IsUnique-cons r rs m u.0 rest.0 rest.1, IdsFrom-cons r r rs m refl rest.1)
  ]
]

clear_states-IdsFrom : (rs : List RelayInfo) → IdsFrom rs (clear_states rs)
unfolding clear_states
clear_states-IdsFrom [] q i = absurd i
clear_states-IdsFrom (r ∷ rs) q i =
    IdsFrom-cons r (record r { state = none }) rs (clear_states rs) refl (clear_states-IdsFrom rs) q
      i

pub clear_states-kept :
    (rs : List RelayInfo)
    → IsOrdered rs
    → IsUnique rs
    → IsOrdered (clear_states rs) × IsUnique (clear_states rs)
unfolding clear_states
clear_states-kept [] o u = (tt, tt)
clear_states-kept (r ∷ rs) o u =
    let rest = clear_states-kept rs o.1 u.1 in
    let from = clear_states-IdsFrom rs in
    (
      (
        (λ q i.
            let p = from q i in subst (λ (x : Str). cmp r.id x ≢ Ordering.gt) p.2 (o.0 p.0 p.1)),
        rest.0,
      ),
      IsUnique-cons (record r { state = none }) rs (clear_states rs) u.0 rest.1 from,
    )
