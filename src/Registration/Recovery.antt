-- ===== src/Registration/Recovery.antt =====
-- The signatures of a recovery: `sign_recovery_group` of
-- bingle_core/src/blockchain/registration_group.rs.
use bingle_rust.Base.{
  if◌then◌else◌, ℕ, List, [], ◌∷◌, ◌≡◌, ◌≢◌, ◌⊎◌, sym, ◌↔◌, ap, ◌∙◌, length, arith,
}
use bingle_rust.Base.Eq.{◌=?◌, nat_eq}
use bingle_rust.Base.Sets.{contains}
use bingle_rust.Base.Str.{Str, str_eq}
use bingle_rust.Turn.ChannelData.{Bytes}
use bingle_rust.Registration.{RegistrationGroupIds, RegistrationGroupError, ok}
use bingle_rust.Registration.Groups.{
  Libraries, check_size, check_sign_indexes, decode_group, check_recovery, sign, sign_each,
  sign_recovery_group, recovery_sign_indexes, recovery_old_key_indexes, refuse_if,
}
use bingle_rust.Registration.Steps.{bind_ok, ok_bind, sign_each-at, sign_each-none}
use bingle_rust.Registration.Decoded.{
  InGroup, decode_group-InGroup, check_size-ok, check_sign_indexes-ok,
}
use bingle_rust.Registration.Recovered.{
  IsRecovery, check_recovery-IsRecovery, IsRecovery-check_recovery,
}

module _ {Key : Type 0} (lib : Libraries Key) where
  -- What is signed of such a group: three transactions with the old key, four with the new one.
  unfoldable pub recovery_signatures :
      {ids : RegistrationGroupIds} {handle : Str} {old fresh : Bytes} {group : List Bytes}
      → Key
      → Key
      → IsRecovery lib ids handle old fresh group
      → List Str
  recovery_signatures old_key new_key m =
      sign lib m.clear_state.bytes old_key
      ∷ sign lib m.close_out.bytes old_key
      ∷ sign lib m.close.bytes old_key
      ∷ sign lib m.opt_in.bytes new_key
      ∷ sign lib m.app_opt_in.bytes new_key
      ∷ sign lib m.payment.bytes new_key
      ∷ sign lib m.register.bytes new_key
      ∷ []

  sign_each-IsRecovery :
      (group : List Bytes) (ids : RegistrationGroupIds) (handle : Str) (old fresh : Bytes)
      (old_key new_key : Key) (m : IsRecovery lib ids handle old fresh group)
      → sign_each lib group
          (λ index. if contains recovery_old_key_indexes index then old_key else new_key)
          recovery_sign_indexes
        ≡ ok (recovery_signatures old_key new_key m)
  unfolding recovery_signatures contains
  sign_each-IsRecovery group ids handle old fresh old_key new_key m =
      let k : ℕ → Key =
        λ index. if contains recovery_old_key_indexes index then old_key else new_key in
      sign_each-at lib group k 0 _ _ _ m.clear_state.is_at (
        sign_each-at lib group k 1 _ _ _ m.close_out.is_at (
          sign_each-at lib group k 2 _ _ _ m.close.is_at (
            sign_each-at lib group k 3 _ _ _ m.opt_in.is_at (
              sign_each-at lib group k 5 _ _ _ m.app_opt_in.is_at (
                sign_each-at lib group k 6 _ _ _ m.payment.is_at (
                  sign_each-at lib group k 7 _ _ _ m.register.is_at
                    (sign_each-none lib group k)))))))

  other_keys : (a b : Bytes) (e : RegistrationGroupError) → (refuse_if (a =? b) e ≡ ok tt) ↔ (a ≢ b)
  other_keys a b e = ground (arith, str_eq.beq_iff a b)

  -- A recovery, and what the client signs of it.
  pub record IsRecoverySigned (texts : List Str) (indexes : List ℕ) (ids : RegistrationGroupIds)
      (handle : Str) (old_key new_key : Key) (signed : List Str) : Type 0 where
    pub size : (9 ≡ length texts) ⊎ (10 ≡ length texts)
    pub indexes_are : indexes ≡ 0 ∷ 1 ∷ 2 ∷ 3 ∷ 5 ∷ 6 ∷ 7 ∷ []
    pub group : List Bytes
    pub one_group : (id : Bytes) × InGroup lib id texts group
    pub keys_differ : lib.public_key old_key ≢ lib.public_key new_key
    pub client : IsRecovery lib ids handle (lib.public_key old_key) (lib.public_key new_key) group
    pub signed_are : signed ≡ recovery_signatures old_key new_key client

  is_signed :
      (texts : List Str) (indexes : List ℕ) (ids : RegistrationGroupIds) (handle : Str)
      (old_key new_key : Key) (signed : List Str)
      → sign_recovery_group lib texts indexes ids handle old_key new_key ≡ ok signed
      → IsRecoverySigned texts indexes ids handle old_key new_key signed
  unfolding sign_recovery_group
  is_signed texts indexes ids handle old_key new_key signed h =
      let old = lib.public_key old_key in
      let fresh = lib.public_key new_key in
      let (u, size, h1) = bind_ok (check_size texts (9 ∷ 10 ∷ [])) _ _ h in
      let (v, wanted, h2) = bind_ok (check_sign_indexes indexes recovery_sign_indexes) _ _ h1 in
      let (group, is_group, h3) = bind_ok (decode_group lib texts) _ _ h2 in
      let (x, differ, h4) = bind_ok (refuse_if (old =? fresh) _) _ _ h3 in
      let (w, passed, h5) = bind_ok (check_recovery lib group ids handle old fresh) _ _ h4 in
      let n = (check_size-ok texts 9 10).0 size in
      let m = check_recovery-IsRecovery lib group ids handle old fresh passed in
      let signing = sign_each-IsRecovery group ids handle old fresh old_key new_key m in
      record {
        size = n;
        indexes_are = (check_sign_indexes-ok indexes recovery_sign_indexes).0 wanted;
        group = group;
        one_group = (decode_group-InGroup lib texts group (ground (arith, n))).0 is_group;
        keys_differ = (other_keys old fresh _).0 differ;
        client = m;
        signed_are = cc (h5, signing);
      }

  signs :
      (texts : List Str) (indexes : List ℕ) (ids : RegistrationGroupIds) (handle : Str)
      (old_key new_key : Key) (signed : List Str)
      → IsRecoverySigned texts indexes ids handle old_key new_key signed
      → sign_recovery_group lib texts indexes ids handle old_key new_key ≡ ok signed
  unfolding sign_recovery_group
  signs texts indexes ids handle old_key new_key signed m =
      let old = lib.public_key old_key in
      let fresh = lib.public_key new_key in
      ok_bind (check_size texts (9 ∷ 10 ∷ [])) _ _ ((check_size-ok texts 9 10).1 m.size)
      ∙ ok_bind (check_sign_indexes indexes recovery_sign_indexes) _ _
          ((check_sign_indexes-ok indexes recovery_sign_indexes).1 m.indexes_are)
      ∙ ok_bind (decode_group lib texts) _ _
          ((decode_group-InGroup lib texts m.group (ground (arith, m.size))).1 m.one_group)
      ∙ ok_bind (refuse_if (old =? fresh) _) _ _ ((other_keys old fresh _).1 m.keys_differ)
      ∙ ok_bind (check_recovery lib m.group ids handle old fresh) _ _
          (IsRecovery-check_recovery lib m.group ids handle old fresh m.client)
      ∙ sign_each-IsRecovery m.group ids handle old fresh old_key new_key m.client
      ∙ ap ok (sym m.signed_are)

  -- A recovery group is signed exactly when it has 9 or 10 transactions of one group id, the
  -- positions to sign are 0 to 3 and 5 to 7, the two keys have different addresses, the funder is
  -- neither of them and pays 1 Bingle$ to the new one, and the client's seven transactions are the
  -- templates: the old account closes its Bingle$ to the funder and its Algos to the new account,
  -- and nothing else; positions 0 to 2 are then signed with the old key and the others with the new
  -- one.
  pub sign_recovery_group-IsRecoverySigned :
      (texts : List Str) (indexes : List ℕ) (ids : RegistrationGroupIds) (handle : Str)
      (old_key new_key : Key) (signed : List Str)
      → (sign_recovery_group lib texts indexes ids handle old_key new_key ≡ ok signed)
        ↔ IsRecoverySigned texts indexes ids handle old_key new_key signed
  sign_recovery_group-IsRecoverySigned texts indexes ids handle old_key new_key signed = (
    is_signed texts indexes ids handle old_key new_key signed,
    signs texts indexes ids handle old_key new_key signed,
  )
