-- ===== src/Registration/Steps.antt =====
-- What holds at one position of a decoded group, and the step that checks it:
-- bingle_core/src/blockchain/registration_group.rs.
use bingle_rust.Base.{ℕ, some, List, [], ◌∷◌, ◌≡◌, refl, ◌↔◌, ap, ◌∙◌, arith}
use bingle_rust.Base.Str.{Str, str_eq}
use bingle_rust.Turn.ChannelData.{Bytes}
use bingle_rust.Registration.{
  RawTransaction, Checked, ok, refused, panicked, ◌>>=◌, Check, check_shared,
}
use bingle_rust.Registration.Template.{IsClient}
use bingle_rust.Registration.Matches.{check_shared-IsClient}
use bingle_rust.Registration.Accepts.{IsClient-check_shared}
use bingle_rust.Registration.Groups.{Libraries, nth, decode, check_client_basics, sign, sign_each}

pub bind_ok {ℓ κ} :
    {A : Type ℓ} {B : Type κ} (c : Checked A) (f : A → Checked B) (b : B)
    → (c >>= f) ≡ ok b
    → (a : A) × (c ≡ ok a) × (f a ≡ ok b)
bind_ok (ok a) f b h = (a, refl, h)
bind_ok (refused e) f b h = cc
bind_ok panicked f b h = cc

pub ok_bind {ℓ κ} :
    {A : Type ℓ} {B : Type κ} (c : Checked A) (f : A → Checked B) (a : A)
    → c ≡ ok a
    → (c >>= f) ≡ f a
ok_bind c f a h = ap (λ x. x >>= f) h

module _ {Key : Type 0} (lib : Libraries Key) where
  -- The bytes at a position decode to a transaction with a property.
  pub record At (group : List Bytes) (index : ℕ) (P : RawTransaction → Type 0) : Type 0 where
    pub bytes : Bytes
    pub txn : RawTransaction
    pub is_at : nth group index ≡ ok bytes
    pub decodes : lib.decode_raw bytes ≡ some txn
    pub holds : P txn

  pub decode_lem :
      (index : ℕ) (bytes : Bytes) (txn : RawTransaction)
      → (decode lib index bytes ≡ ok txn) ↔ (lib.decode_raw bytes ≡ some txn)
  unfolding decode
  decode_lem index bytes txn = ground arith

  check_client_basics-At :
      (group : List Bytes) (index : ℕ) (sender : Bytes) (txn : RawTransaction)
      → check_client_basics lib group index sender ≡ ok txn
      → (a : At group index (IsClient sender)) × (a.txn ≡ txn)
  unfolding check_client_basics
  check_client_basics-At group index sender txn h =
      let (bytes, at, h1) = bind_ok (nth group index) _ _ h in
      let (t, decodes, h2) = bind_ok (decode lib index bytes) _ _ h1 in
      let (u, shared, h3) = bind_ok (check_shared index sender t) _ _ h2 in
      (
        record {
          bytes = bytes;
          txn = t;
          is_at = at;
          decodes = (decode_lem index bytes t).0 decodes;
          holds = check_shared-IsClient index sender t shared;
        },
        cc,
      )

  At-check_client_basics :
      (group : List Bytes) (index : ℕ) (sender : Bytes) (a : At group index (IsClient sender))
      → check_client_basics lib group index sender ≡ ok a.txn
  unfolding check_client_basics
  At-check_client_basics group index sender a =
      ok_bind (nth group index) _ _ a.is_at
      ∙ ok_bind (decode lib index a.bytes) _ _ ((decode_lem index a.bytes a.txn).1 a.decodes)
      ∙ ok_bind (check_shared index sender a.txn) _ _
          (IsClient-check_shared index sender a.txn a.holds)

  module _ (group : List Bytes) (index : ℕ) (sender : Bytes) (check : RawTransaction → Check)
      (P : RawTransaction → Type 0) where
    pub step :
        ((t : RawTransaction) → check t ≡ ok tt → P t)
        → (rest : Check)
        → (check_client_basics lib group index sender >>= (λ t. check t >>= (λ u. rest))) ≡ ok tt
        → At group index (λ t. IsClient sender t × P t) × (rest ≡ ok tt)
    step sound rest h =
        let (txn, basics, h1) = bind_ok (check_client_basics lib group index sender) _ _ h in
        let (u, checked, h2) = bind_ok (check txn) _ _ h1 in
        let (a, same) = check_client_basics-At group index sender txn basics in
        (
          record {
            bytes = a.bytes;
            txn = a.txn;
            is_at = a.is_at;
            decodes = a.decodes;
            holds = (a.holds, rw same (sound txn checked));
          },
          h2,
        )

    pub unstep :
        ((t : RawTransaction) → P t → check t ≡ ok tt)
        → (rest : Check) → (a : At group index (λ t. IsClient sender t × P t))
        → (check_client_basics lib group index sender >>= (λ t. check t >>= (λ u. rest))) ≡ rest
    unstep complete rest a =
        let client : At group index (IsClient sender) = record {
          bytes = a.bytes;
          txn = a.txn;
          is_at = a.is_at;
          decodes = a.decodes;
          holds = a.holds.0;
        } in
        ok_bind (check_client_basics lib group index sender) _ _
          (At-check_client_basics group index sender client)
        ∙ ok_bind (check a.txn) _ _ (complete a.txn a.holds.1)

  pub sign_each-at :
      (group : List Bytes) (key : ℕ → Key) (index : ℕ) (rest : List ℕ) (bytes : Bytes)
      (signed : List Str)
      → nth group index ≡ ok bytes
      → sign_each lib group key rest ≡ ok signed
      → sign_each lib group key (index ∷ rest) ≡ ok (sign lib bytes (key index) ∷ signed)
  unfolding sign_each
  sign_each-at group key index rest bytes signed at h =
      ok_bind (nth group index) _ _ at ∙ ok_bind (sign_each lib group key rest) _ _ h

  pub sign_each-none : (group : List Bytes) (key : ℕ → Key) → sign_each lib group key [] ≡ ok []
  unfolding sign_each
  sign_each-none group key = refl
