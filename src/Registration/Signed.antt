-- ===== src/Registration/Signed.antt =====
-- What `sign_registration_group` signs: bingle_core/src/blockchain/registration_group.rs.
use bingle_rust.Base.{ℕ, none, some, List, [], ◌∷◌, ◌≡◌, ◌⊎◌, sym, ◌↔◌, ap, ◌∙◌, length, arith}
use bingle_rust.Base.Eq.{nat_eq}
use bingle_rust.Base.Str.{Str, str_eq}
use bingle_rust.Turn.ChannelData.{Bytes}
use bingle_rust.Registration.{RegistrationGroupIds, ok, on_complete_opt_in}
use bingle_rust.Registration.Checks.{check_asset_opt_in}
use bingle_rust.Registration.Groups.{
  Libraries, check_size, check_sign_indexes, decode_group, check_registration, sign, sign_each,
  sign_registration_group, app_address, register_call, registration_sign_indexes,
}
use bingle_rust.Registration.Template.{IsClient, IsTransfer, IsCall}
use bingle_rust.Registration.Matches.{check_asset_transfer-IsTransfer, check_app_call-IsCall}
use bingle_rust.Registration.Accepts.{IsTransfer-check_asset_transfer, IsCall-check_app_call}
use bingle_rust.Registration.Steps.{
  bind_ok, ok_bind, At, step, unstep, sign_each-at, sign_each-none,
}
use bingle_rust.Registration.Decoded.{
  InGroup, decode_group-InGroup, check_size-ok, check_sign_indexes-ok,
}

module _ {Key : Type 0} (lib : Libraries Key) where
  -- The client's four transactions of a registration.
  pub record IsRegistration (ids : RegistrationGroupIds) (handle : Str) (address : Bytes)
      (group : List Bytes) : Type 0 where
    pub opt_in : At lib group 1 (λ t. IsClient address t × IsTransfer ids t.snd 0 none t)
    pub app_opt_in : At lib group 3 (λ t. IsClient address t × IsCall ids (some 1) none t)
    pub payment :
        At lib group 4
          (λ t. IsClient address t × IsTransfer ids (app_address lib ids.bingle_app_id) 1 none t)
    pub register :
        At lib group 5
          (λ t. IsClient address t × IsCall ids none (some (register_call lib handle)) t)

  check_registration-IsRegistration :
      (group : List Bytes) (ids : RegistrationGroupIds) (handle : Str) (address : Bytes)
      → check_registration lib group ids handle address ≡ ok tt
      → IsRegistration ids handle address group
  unfolding check_registration
  check_registration-IsRegistration group ids handle address h =
      let (a, h1) =
        step lib group 1 address (λ t. check_asset_opt_in 1 t ids) _
          (λ t. check_asset_transfer-IsTransfer 1 t ids t.snd 0 none) _ h in
      let (b, h2) =
        step lib group 3 address _ _
          (λ t. check_app_call-IsCall 3 t ids (some on_complete_opt_in) none) _ h1 in
      let (c, h3) =
        step lib group 4 address _ _
          (λ t. check_asset_transfer-IsTransfer 4 t ids (app_address lib ids.bingle_app_id) 1 none)
          _ h2 in
      let (d, h4) =
        step lib group 5 address _ _
          (λ t. check_app_call-IsCall 5 t ids none (some (register_call lib handle))) _ h3 in
      record { opt_in = a; app_opt_in = b; payment = c; register = d }

  IsRegistration-check_registration :
      (group : List Bytes) (ids : RegistrationGroupIds) (handle : Str) (address : Bytes)
      → IsRegistration ids handle address group
      → check_registration lib group ids handle address ≡ ok tt
  unfolding check_registration
  IsRegistration-check_registration group ids handle address m =
      unstep lib group 1 address (λ t. check_asset_opt_in 1 t ids) _
        (λ t. IsTransfer-check_asset_transfer 1 t ids t.snd 0 none) _ m.opt_in
      ∙ unstep lib group 3 address _ _
          (λ t. IsCall-check_app_call 3 t ids (some on_complete_opt_in) none) _ m.app_opt_in
      ∙ unstep lib group 4 address _ _
          (λ t. IsTransfer-check_asset_transfer 4 t ids (app_address lib ids.bingle_app_id) 1 none)
          _ m.payment
      ∙ unstep lib group 5 address _ _
          (λ t. IsCall-check_app_call 5 t ids none (some (register_call lib handle))) _ m.register

  -- What is signed of such a group, in the order of the positions.
  unfoldable pub signatures :
      {ids : RegistrationGroupIds} {handle : Str} {address : Bytes} {group : List Bytes}
      → Key
      → IsRegistration ids handle address group
      → List Str
  signatures key m =
      sign lib m.opt_in.bytes key
      ∷ sign lib m.app_opt_in.bytes key
      ∷ sign lib m.payment.bytes key
      ∷ sign lib m.register.bytes key
      ∷ []

  sign_each-IsRegistration :
      (group : List Bytes) (ids : RegistrationGroupIds) (handle : Str) (address : Bytes) (key : Key)
      (m : IsRegistration ids handle address group)
      → sign_each lib group (λ index. key) registration_sign_indexes ≡ ok (signatures key m)
  unfolding signatures
  sign_each-IsRegistration group ids handle address key m =
      let k : ℕ → Key = λ index. key in
      sign_each-at lib group k 1 _ _ _ m.opt_in.is_at (
        sign_each-at lib group k 3 _ _ _ m.app_opt_in.is_at (
          sign_each-at lib group k 4 _ _ _ m.payment.is_at
            (sign_each-at lib group k 5 _ _ _ m.register.is_at (sign_each-none lib group k))))

  -- A registration, and what the client signs of it.
  pub record IsSigned (texts : List Str) (indexes : List ℕ) (ids : RegistrationGroupIds)
      (handle : Str) (key : Key) (signed : List Str) : Type 0 where
    pub size : (7 ≡ length texts) ⊎ (8 ≡ length texts)
    pub indexes_are : indexes ≡ 1 ∷ 3 ∷ 4 ∷ 5 ∷ []
    pub group : List Bytes
    pub one_group : (id : Bytes) × InGroup lib id texts group
    pub client : IsRegistration ids handle (lib.public_key key) group
    pub signed_are : signed ≡ signatures key client

  is_signed :
      (texts : List Str) (indexes : List ℕ) (ids : RegistrationGroupIds) (handle : Str) (key : Key)
      (signed : List Str)
      → sign_registration_group lib texts indexes ids handle key ≡ ok signed
      → IsSigned texts indexes ids handle key signed
  unfolding sign_registration_group
  is_signed texts indexes ids handle key signed h =
      let (u, size, h1) = bind_ok (check_size texts (7 ∷ 8 ∷ [])) _ _ h in
      let (v, wanted, h2) = bind_ok (check_sign_indexes indexes registration_sign_indexes) _ _ h1 in
      let (group, is_group, h3) = bind_ok (decode_group lib texts) _ _ h2 in
      let (w, passed, h4) =
        bind_ok (check_registration lib group ids handle (lib.public_key key)) _ _ h3 in
      let n = (check_size-ok texts 7 8).0 size in
      let m = check_registration-IsRegistration group ids handle (lib.public_key key) passed in
      let signing = sign_each-IsRegistration group ids handle (lib.public_key key) key m in
      record {
        size = n;
        indexes_are = (check_sign_indexes-ok indexes registration_sign_indexes).0 wanted;
        group = group;
        one_group = (decode_group-InGroup lib texts group (ground (arith, n))).0 is_group;
        client = m;
        signed_are = cc (h4, signing);
      }

  signs :
      (texts : List Str) (indexes : List ℕ) (ids : RegistrationGroupIds) (handle : Str) (key : Key)
      (signed : List Str)
      → IsSigned texts indexes ids handle key signed
      → sign_registration_group lib texts indexes ids handle key ≡ ok signed
  unfolding sign_registration_group
  signs texts indexes ids handle key signed m =
      ok_bind (check_size texts (7 ∷ 8 ∷ [])) _ _ ((check_size-ok texts 7 8).1 m.size)
      ∙ ok_bind (check_sign_indexes indexes registration_sign_indexes) _ _
          ((check_sign_indexes-ok indexes registration_sign_indexes).1 m.indexes_are)
      ∙ ok_bind (decode_group lib texts) _ _
          ((decode_group-InGroup lib texts m.group (ground (arith, m.size))).1 m.one_group)
      ∙ ok_bind (check_registration lib m.group ids handle (lib.public_key key)) _ _
          (IsRegistration-check_registration m.group ids handle (lib.public_key key) m.client)
      ∙ sign_each-IsRegistration m.group ids handle (lib.public_key key) key m.client
      ∙ ap ok (sym m.signed_are)

  -- A registration group is signed exactly when it has 7 or 8 transactions, the positions to sign
  -- are 1, 3, 4 and 5, every transaction carries one group id, and the client's four transactions
  -- are the templates of the network's ids, the handle and the key, with no other field, a fee of
  -- at most 1000 and no rekeying, note or lease; what is returned is then the signatures of these
  -- four, in the order of the positions.
  pub sign_registration_group-IsSigned :
      (texts : List Str) (indexes : List ℕ) (ids : RegistrationGroupIds) (handle : Str) (key : Key)
      (signed : List Str)
      → (sign_registration_group lib texts indexes ids handle key ≡ ok signed)
        ↔ IsSigned texts indexes ids handle key signed
  sign_registration_group-IsSigned texts indexes ids handle key signed =
      (is_signed texts indexes ids handle key signed, signs texts indexes ids handle key signed)
