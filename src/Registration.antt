-- ===== src/Registration.antt =====
-- Checking and signing the transaction groups of a registration:
-- bingle_core/src/blockchain/registration_group.rs. This file holds the data and the checks that
-- all client transactions share.
pub mod Checks
pub mod Groups
pub mod Template
pub mod Matches
pub mod Accepts
pub mod Steps
pub mod Decoded
pub mod Signed
pub mod Recovered
pub mod Recovery
pub mod InRange
pub mod Total
mod Examples
use bingle_rust.Base.{
  ℕ, ◌+◌, ◌/◌, ◌%◌, ◌^◌, min, Bool, true, false, not, ◌&&◌, Option, none, some, List, [], ◌∷◌, ◌++◌,
  ◌==◌, ltb, leb, length, take, find, if◌then◌else◌,
}
use bingle_rust.Base.Eq.{Eq, ◌=?◌, option_eq, nat_eq}
use bingle_rust.Base.Str.{Str, str_eq}
use bingle_rust.Turn.ChannelData.{Bytes, to_be_bytes}

pub record RegistrationGroupIds : Type 0 where
  pub bingle_app_id : ℕ
  pub bingle_asset_id : ℕ

-- A transaction's fields. Bytes are texts here, since both are lists of bytes.
pub record RawTransaction : Type 0 where
  pub txn_type : Str
  pub snd : Bytes
  pub fee : Option ℕ
  pub fv : Option ℕ
  pub lv : ℕ
  pub genesis_id : Option Str
  pub gh : Bytes
  pub grp : Option Bytes
  pub lx : Option Bytes
  pub note : Option Bytes
  pub rekey : Option Bytes
  pub rcv : Option Bytes
  pub amt : Option ℕ
  pub close : Option Bytes
  pub xaid : Option ℕ
  pub aamt : Option ℕ
  pub arcv : Option Bytes
  pub aclose : Option Bytes
  pub asnd : Option Bytes
  pub apid : Option ℕ
  pub apan : Option ℕ
  pub apaa : Option (List Bytes)
  pub apat : Option (List Bytes)
  pub apfa : Option (List ℕ)
  pub apas : Option (List ℕ)

-- What the template expects at a position.
pub data Expected : Type 0 where
  client_transaction : Expected
  bingle_transfer : Expected
  account_close : Expected
  dapp_opt_in : Expected
  dapp_clear_state : Expected
  dapp_register : Expected
  recovery_group : Expected
  funder_transfer : Expected

-- What differs, in place of the source's texts.
pub data Reason : Type 0 where
  other_sender : Reason
  fee_above : ℕ → Reason
  rekeys : Reason
  has_note : Reason
  has_lease : Reason
  type_is : Str → Reason
  has_field : Str → Reason
  asset_is : Option ℕ → Reason
  other_receiver : Reason
  amount_is : ℕ → ℕ → Reason
  other_close_to : Reason
  not_zero : Reason
  app_is : Option ℕ → Reason
  on_complete_is : Option ℕ → Reason
  other_arguments : Reason
  other_assets : Reason
  same_keys : Reason
  own_funder : Reason

-- The decoder's own text is left out. A size names the sizes allowed.
pub data RegistrationGroupError : Type 0 where
  group_size : List ℕ → ℕ → RegistrationGroupError
  sign_indexes : List ℕ → List ℕ → RegistrationGroupError
  undecodable : ℕ → RegistrationGroupError
  template : ℕ → Expected → Reason → RegistrationGroupError
  other_group : ℕ → RegistrationGroupError

-- `Result<_, RegistrationGroupError>`, and the panic of an index out of range.
pub data Checked {ℓ} (A : Type ℓ) : Type ℓ where
  ok : A → Checked A
  refused : RegistrationGroupError → Checked A
  panicked : Checked A

-- A check that returns nothing.
abbrev pub Check : Type 0
Check = Checked (Unit {0})

-- `?`.
infixl 5 ◌>>=◌
abbrev pub ◌>>=◌ {ℓ κ} : {A : Type ℓ} {B : Type κ} → Checked A → (A → Checked B) → Checked B
ok a >>= f = f a
refused e >>= f = refused e
panicked >>= f = panicked

abbrev pub max_client_fee : ℕ
max_client_fee = 1000

abbrev pub on_complete_opt_in : ℕ
on_complete_opt_in = 1

abbrev pub on_complete_clear_state : ℕ
on_complete_clear_state = 3

abbrev pub unwrap_or_zero : Option ℕ → ℕ
unwrap_or_zero o = elim o [ none ↦ 0 | some n ↦ n ]

abbrev pub is_some {ℓ} : {A : Type ℓ} → Option A → Bool
is_some o = elim o [ none ↦ false | some a ↦ true ]

-- The first field that is present is refused.
unfoldable pub only_fields : ℕ → Expected → List (Str × Bool) → Check
only_fields index what fields = elim (find (λ (f : Str × Bool). f.1) fields) [
  | none ↦ ok tt
  | some f ↦ refused (template index what (has_field f.0))
]

unfoldable pub no_app_fields : ℕ → Expected → RawTransaction → Check
no_app_fields index what txn = only_fields index what (
    (b'a' ∷ b'p' ∷ b'i' ∷ b'd' ∷ [], is_some txn.apid)
    ∷ (b'a' ∷ b'p' ∷ b'a' ∷ b'n' ∷ [], is_some txn.apan)
    ∷ (b'a' ∷ b'p' ∷ b'a' ∷ b'a' ∷ [], is_some txn.apaa)
    ∷ (b'a' ∷ b'p' ∷ b'a' ∷ b't' ∷ [], is_some txn.apat)
    ∷ (b'a' ∷ b'p' ∷ b'f' ∷ b'a' ∷ [], is_some txn.apfa)
    ∷ (b'a' ∷ b'p' ∷ b'a' ∷ b's' ∷ [], is_some txn.apas)
    ∷ [])

-- What every client transaction shares.
unfoldable pub check_shared : ℕ → Bytes → RawTransaction → Check
check_shared index sender txn =
    if not (txn.snd =? sender)
    then refused (template index client_transaction other_sender)
    else if ltb max_client_fee (unwrap_or_zero txn.fee)
    then refused (template index client_transaction (fee_above (unwrap_or_zero txn.fee)))
    else if is_some txn.rekey
    then refused (template index client_transaction rekeys)
    else if is_some txn.note
    then refused (template index client_transaction has_note)
    else if is_some txn.lx
    then refused (template index client_transaction has_lease)
    else ok tt
