-- ===== src/Relays/Cache/Find.antt =====
-- The relay that `find_relay_excluding` finds.
use bingle_rust.Base.{
  ◌≡◌, ◌≢◌, refl, ap, sym, subst, ◌∙◌, true, false, some, List, [], ◌∷◌, All, arith, Bool-cases,
  inl, inr,
}
use Prim.Native.Nat.{Ordering}
use bingle_rust.Base.Eq.{◌=?◌}
use bingle_rust.Base.Str.{Str, str_eq, str_beq_iff, cmp, cmp-eq_iff}
use bingle_rust.Net.{SocketAddr}
use bingle_rust.Relays.Corner.{is_excluded_corner}
use bingle_rust.Relays.Cache.{
  RelayInfo, RelayInfoCache, sort_by_id, trim_issuer_suffix, Found, found, not_found, candidates,
  first_found, find_relay_excluding,
}
use bingle_rust.Base.Order.{In, sort_by-In, sort_by-IsOrdered}
use bingle_rust.Relays.Cache.Sort.{NotAfter, IsOrdered, relay_key}

-- Another node that the list does not exclude.
abbrev pub IsEligible : Str → List SocketAddr → RelayInfo → Type 0
IsEligible my_id exclude r =
    (r.id ≢ my_id)
    × ((a : SocketAddr) × (r.address ≡ some a) × (is_excluded_corner a exclude ≡ false))

abbrev pub HasAddress : RelayInfo → Type 0
HasAddress r = (a : SocketAddr) × (r.address ≡ some a)

-- What the search may answer.
pub data Answer (my_id : Str) (exclude : List SocketAddr) (relays : List RelayInfo)
    : Found → Type 0 where
  finds :
      (r : RelayInfo)
      → In r relays
      → IsEligible my_id exclude r
      → ((q : RelayInfo) → In q relays → IsEligible my_id exclude q → cmp r.id q.id ≢ Ordering.gt)
      → Answer my_id exclude relays (found r)
  finds_none :
      ((q : RelayInfo) → In q relays → IsEligible my_id exclude q → ⊥)
      → Answer my_id exclude relays not_found

excluded_not :
    (exclude : List SocketAddr) (r q : RelayInfo) (a b : SocketAddr)
    → r ≡ q
    → r.address ≡ some a
    → q.address ≡ some b
    → is_excluded_corner a exclude ≡ true
    → is_excluded_corner b exclude ≡ false
    → ⊥
excluded_not exclude r q a b same ra qb shut free = absurd (cc (same, ra, qb, shut, free))

candidates_lem :
    (my_id : Str) (exclude : List SocketAddr) (relays : List RelayInfo)
    → All HasAddress relays
    → (l : List RelayInfo) × (candidates my_id exclude relays ≡ some l)
      × ((q : RelayInfo) → In q l → In q relays × IsEligible my_id exclude q)
      × ((q : RelayInfo) → In q relays → IsEligible my_id exclude q → In q l)
unfolding candidates
candidates_lem my_id exclude [] h = ([], refl, (λ q i. absurd i), (λ q i e. i))
candidates_lem my_id exclude (r ∷ rs) h =
    let rest = candidates_lem my_id exclude rs h.1 in
    let a = h.0.0 in
    elim (Bool-cases (r.id =? my_id)) [
      | inl own ↦ (
        rest.0,
        ground (arith, own, rest.1),
        (λ q i. (inr (rest.2 q i).0, (rest.2 q i).1)),
        (λ q i e. elim i [
          | inl same ↦
              absurd
                (e.0 (ap (λ (x : RelayInfo). x.id) (sym same) ∙ (str_beq_iff r.id my_id).0 own))
          | inr later ↦ rest.3 q later e
        ]),
      )
      | inr other ↦ elim (Bool-cases (is_excluded_corner a exclude)) [
        | inl shut ↦ (
          rest.0,
          ground (arith, other, shut, h.0.1, rest.1),
          (λ q i. (inr (rest.2 q i).0, (rest.2 q i).1)),
          (λ q i e. elim i [
            | inl same ↦ absurd (excluded_not exclude r q a e.1.0 same h.0.1 e.1.1 shut e.1.2)
            | inr later ↦ rest.3 q later e
          ]),
        )
        | inr free ↦ (
          r ∷ rest.0,
          ground (arith, other, free, h.0.1, rest.1),
          (λ q i. elim i [
            | inl same ↦ (
              inl same,
              subst (IsEligible my_id exclude) same
                  ((λ e. absurd (ground (arith, e, str_beq_iff r.id my_id))), (a, h.0.1, free)),
            )
            | inr later ↦ (inr (rest.2 q later).0, (rest.2 q later).1)
          ]),
          (λ q i e. elim i [ inl same ↦ inl same | inr later ↦ inr (rest.3 q later e) ]),
        )
      ]
    ]

-- The first relay of an ordered list of the candidates.
first_found-Answer :
    (my_id : Str) (exclude : List SocketAddr) (relays l : List RelayInfo)
    → ((q : RelayInfo) → In q l → In q relays × IsEligible my_id exclude q)
    → ((q : RelayInfo) → In q relays → IsEligible my_id exclude q → In q l)
    → IsOrdered l
    → Answer my_id exclude relays (first_found l)
unfolding first_found
first_found-Answer my_id exclude relays [] only each o = finds_none each
first_found-Answer my_id exclude relays (r ∷ rs) only each o =
    finds r (only r (inl refl)).0 (only r (inl refl)).1 (λ q i e. elim (each q i e) [
      | inl same ↦ subst (NotAfter r) same (λ g. ground (arith, cmp-eq_iff r.id r.id))
      | inr later ↦ o.0 q later
    ])

-- With the lock sound and an address for every relay, the search returns a relay of the cache that
-- is not the node itself (its id without the issuer suffix) and not excluded, and whose id comes
-- after that of no other such relay; and it returns nothing only if the cache has no such relay.
pub find_relay_excluding-Answer :
    (my_id : Str) (exclude : List SocketAddr) (c : RelayInfoCache)
    → c.poisoned ≡ false
    → All HasAddress c.inner
    → Answer (trim_issuer_suffix my_id) exclude c.inner (find_relay_excluding my_id exclude c)
unfolding find_relay_excluding
find_relay_excluding-Answer my_id exclude c sound addresses =
    let my = trim_issuer_suffix my_id in
    let found_all = candidates_lem my exclude c.inner addresses in
    let at : find_relay_excluding my_id exclude c ≡ first_found (sort_by_id found_all.0) =
      ground (arith, sound, found_all.1) in
    subst (Answer my exclude c.inner) (sym at) (
      first_found-Answer my exclude c.inner (sort_by_id found_all.0)
        (λ q i. found_all.2 q ((sort_by-In relay_key q found_all.0).0 i))
        (λ q i e. (sort_by-In relay_key q found_all.0).1 (found_all.3 q i e))
        (sort_by-IsOrdered relay_key found_all.0))
