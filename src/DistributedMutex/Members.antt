-- ===== src/DistributedMutex/Members.antt =====
-- `update_membership` adds the sender and the ids that it knows, and loses no member.
use bingle_rust.Base.{◌≡◌, refl, Bool, true, false, Option, none, some, List, [], ◌∷◌, arith}
use bingle_rust.Base.Eq.{option_eq}
use bingle_rust.Base.Sets.{contains, distinct, contains-add, distinct-add}
use bingle_rust.Base.Str.{Str, str_eq, str_beq_iff}
use bingle_rust.DistributedMutex.{InnerState, add_member, add_members, update_membership}

add_member_lem :
    (x : Str) (m : List Str × Bool)
    → distinct m.0 ≡ true
    → (distinct (add_member x m).0 ≡ true)
      × (contains (add_member x m).0 x ≡ true)
      × ((id : Str) → contains m.0 id ≡ true → contains (add_member x m).0 id ≡ true)
unfolding add_member
add_member_lem x m d = (
  ground (arith, distinct-add x m.0 d),
  ground (arith, contains-add x x m.0, str_beq_iff x x),
  λ id h. ground (arith, contains-add x id m.0),
)

add_members_lem :
    (ids : List Str) (m : List Str × Bool)
    → distinct m.0 ≡ true
    → (distinct (add_members ids m).0 ≡ true)
      × ((id : Str) → contains m.0 id ≡ true → contains (add_members ids m).0 id ≡ true)
unfolding add_members
add_members_lem [] m d = (d, λ id h. h)
add_members_lem (x ∷ ids) m d =
    let one = add_member_lem x m d in
    let rest = add_members_lem ids (add_member x m) one.0 in
    (rest.0, λ id h. rest.1 id (one.2 id h))

-- The sender is a member then, and no member is lost.
pub update_membership_lem :
    (from : Str) (known : Option (List Str)) (st : InnerState)
    → distinct st.dynamic_node_ids ≡ true
    → let t = (update_membership from known st).0 in
      (distinct t.dynamic_node_ids ≡ true)
      × (contains t.dynamic_node_ids from ≡ true)
      × ((id : Str)
          → contains st.dynamic_node_ids id ≡ true
          → contains t.dynamic_node_ids id ≡ true)
      × (t.acks ≡ st.acks)
unfolding update_membership
update_membership_lem from known st d =
    let ids : List Str = elim known [ none ↦ [] | some ids ↦ ids ] in
    let one = add_member_lem from (st.dynamic_node_ids, false) d in
    let rest = add_members_lem ids (add_member from (st.dynamic_node_ids, false)) one.0 in
    (rest.0, rest.1 from one.1, λ id h. rest.1 id (one.2 id h), refl)
