-- ===== src/Registration/Decoded.antt =====
-- The transactions of one group: `decode_group` of bingle_core/src/blockchain/registration_group.rs.
use bingle_rust.Base.Sets.{contains}
use bingle_rust.Base.Eq.{nat_eq}
use bingle_rust.Base.{
  ℕ, ◌≤◌, ◌⊎◌, ==_iff, suc, Bool, true, not, Option, none, some, List, [], ◌∷◌, ◌≡◌, refl, ◌↔◌, ◌∙◌,
  length, arith,
}
use bingle_rust.Base.Str.{Str, str_eq}
use bingle_rust.Turn.ChannelData.{Bytes}
use bingle_rust.Registration.{RegistrationGroupError, ok, other_group, undecodable}
use bingle_rust.Registration.Groups.{
  check_size, check_sign_indexes, Libraries, group_of, decode_from, decode_group, or_refuse,
  refuse_if, is_same_group,
}
use bingle_rust.Registration.Steps.{bind_ok, ok_bind}

pub check_size-ok :
    (texts : List Str) (a b : ℕ)
    → (check_size texts (a ∷ b ∷ []) ≡ ok tt) ↔ ((a ≡ length texts) ⊎ (b ≡ length texts))
unfolding check_size contains
check_size-ok texts a b = ground (arith, ==_iff a (length texts), ==_iff b (length texts))

pub check_sign_indexes-ok :
    (indexes wanted : List ℕ) → (check_sign_indexes indexes wanted ≡ ok tt) ↔ (indexes ≡ wanted)
unfolding check_sign_indexes
check_sign_indexes-ok indexes wanted = ground (arith, str_eq.beq_iff indexes wanted)

module _ {Key : Type 0} (lib : Libraries Key) where
  -- Texts, and the bytes they stand for, that all carry one group id.
  pub data InGroup (id : Bytes) : List Str → List Bytes → Type 0 where
    nothing : InGroup id [] []
    also :
        {encoded : Str} {bytes : Bytes} {texts : List Str} {group : List Bytes}
        → lib.decode64 encoded ≡ some bytes
        → lib.decode_group_only bytes ≡ some (some id)
        → InGroup id texts group
        → InGroup id (encoded ∷ texts) (bytes ∷ group)

  group_of_lem :
      (index : ℕ) (bytes : Bytes) (grp : Bytes)
      → (group_of lib index bytes ≡ ok grp) ↔ (lib.decode_group_only bytes ≡ some (some grp))
  unfolding group_of
  group_of_lem index bytes grp = ground arith

  or_refuse-ok {ℓ} :
      {A : Type ℓ} (o : Option A) (e : RegistrationGroupError) (a : A)
      → (or_refuse o e ≡ ok a) ↔ (o ≡ some a)
  or_refuse-ok o e a = ground arith

  unless_other :
      (same : Bool) (e : RegistrationGroupError) → (refuse_if (not same) e ≡ ok tt) ↔ (same ≡ true)
  unless_other same e = ground arith

  is_same : (id grp : Bytes) → (is_same_group (some id) grp ≡ true) ↔ (id ≡ grp)
  unfolding is_same_group
  is_same id grp = str_eq.beq_iff id grp

  -- One transaction of the loop.
  decode_one :
      (index : ℕ) (group_id : Option Bytes) (encoded : Str) (texts : List Str) (group : List Bytes)
      → decode_from lib index group_id (encoded ∷ texts) ≡ ok group
      → (bytes : Bytes) × (grp : Bytes) × (after : List Bytes) × (lib.decode64 encoded ≡ some bytes)
        × (lib.decode_group_only bytes ≡ some (some grp))
        × (is_same_group group_id grp ≡ true)
        × (decode_from lib (suc index) (some grp) texts ≡ ok after)
        × (group ≡ bytes ∷ after)
  unfolding decode_from
  decode_one index group_id encoded texts group h =
      let (bytes, decoded, h1) =
        bind_ok (or_refuse (lib.decode64 encoded) (undecodable index)) _ _ h in
      let (grp, of, h2) = bind_ok (group_of lib index bytes) _ _ h1 in
      let (u, same, h3) =
        bind_ok (refuse_if (not (is_same_group group_id grp)) (other_group index)) _ _ h2 in
      let (after, rest, h4) = bind_ok (decode_from lib (suc index) (some grp) texts) _ _ h3 in
      (
        bytes,
        grp,
        after,
        (or_refuse-ok _ _ _).0 decoded,
        (group_of_lem index bytes grp).0 of,
        (unless_other _ _).0 same,
        rest,
        cc,
      )

  decode_one_more :
      (index : ℕ) (group_id : Option Bytes) (encoded : Str) (texts : List Str) (bytes grp : Bytes)
      (after : List Bytes)
      → lib.decode64 encoded ≡ some bytes
      → lib.decode_group_only bytes ≡ some (some grp)
      → is_same_group group_id grp ≡ true
      → decode_from lib (suc index) (some grp) texts ≡ ok after
      → decode_from lib index group_id (encoded ∷ texts) ≡ ok (bytes ∷ after)
  unfolding decode_from
  decode_one_more index group_id encoded texts bytes grp after decoded of same rest =
      ok_bind (or_refuse (lib.decode64 encoded) (undecodable index)) _ _
        ((or_refuse-ok _ _ _).1 decoded)
      ∙ ok_bind (group_of lib index bytes) _ _ ((group_of_lem index bytes grp).1 of)
      ∙ ok_bind (refuse_if (not (is_same_group group_id grp)) (other_group index)) _ _
          ((unless_other _ _).1 same)
      ∙ ok_bind (decode_from lib (suc index) (some grp) texts) _ _ rest

  decode_from-InGroup :
      (index : ℕ) (id : Bytes) (texts : List Str) (group : List Bytes)
      → decode_from lib index (some id) texts ≡ ok group
      → InGroup id texts group
  unfolding decode_from
  decode_from-InGroup index id [] group h = let is : group ≡ [] = cc h in rw is nothing
  decode_from-InGroup index id (encoded ∷ texts) group h =
      let (bytes, grp, after, decoded, of, same, rest, is) =
        decode_one index (some id) encoded texts group h in
      let tail = decode_from-InGroup (suc index) grp texts after rest in
      let is_id : id ≡ grp = (is_same id grp).0 same in rw (is, is_id) (also decoded of tail)

  InGroup-decode_from :
      (id : Bytes) (index : ℕ) (texts : List Str) (group : List Bytes)
      → InGroup id texts group
      → decode_from lib index (some id) texts ≡ ok group
  unfolding decode_from
  InGroup-decode_from id index _ _ nothing = refl
  InGroup-decode_from id index _ _ (also {encoded} {bytes} {texts} {group} decoded of rest) =
      decode_one_more index (some id) encoded texts bytes id group decoded of
        ((is_same id id).1 refl) (InGroup-decode_from id (suc index) texts group rest)

  first_decoded :
      (id : Bytes) {text : Str} {texts : List Str} {group : List Bytes}
      → InGroup id (text ∷ texts) group
      → decode_group lib (text ∷ texts) ≡ ok group
  unfolding decode_group is_same_group
  first_decoded id (also {encoded} {bytes} {texts} {group} decoded of rest) =
      decode_one_more 0 none encoded texts bytes id group decoded of refl
        (InGroup-decode_from id 1 texts group rest)

  -- The texts of one group are the ones that are decoded.
  decode_group-first :
      (text : Str) (texts : List Str) (group : List Bytes)
      → (decode_group lib (text ∷ texts) ≡ ok group)
        ↔ ((id : Bytes) × InGroup id (text ∷ texts) group)
  unfolding decode_group is_same_group
  decode_group-first text texts group = (
    λ h.
        let (bytes, grp, after, decoded, of, same, rest, is) =
          decode_one 0 none text texts group h in
        (grp, rw is (also decoded of (decode_from-InGroup 1 grp texts after rest))),
    λ p. first_decoded p.0 p.1,
  )

  pub decode_group-InGroup :
      (texts : List Str) (group : List Bytes)
      → 1 ≤ length texts
      → (decode_group lib texts ≡ ok group) ↔ ((id : Bytes) × InGroup id texts group)
  decode_group-InGroup [] group h = let z : ⊥ = omega arith in elim z [ ]
  decode_group-InGroup (text ∷ texts) group h = decode_group-first text texts group
