-- ===== src/Registration/Template.antt =====
-- What each kind of transaction may be, field by field, for
-- bingle_core/src/blockchain/registration_group.rs.
use bingle_rust.Base.{ℕ, ◌≤◌, Option, none, some, List, [], ◌∷◌, ◌≡◌}
use bingle_rust.Base.Eq.{option_eq, nat_eq}
use bingle_rust.Base.Str.{Str, str_eq}
use bingle_rust.Turn.ChannelData.{Bytes}
use bingle_rust.Registration.{RegistrationGroupIds, RawTransaction, unwrap_or_zero, max_client_fee}
use bingle_rust.Registration.Checks.{axfer, pay, appl, args_eq}

-- A transaction of a type with a transaction's sender, fee, validity, network and group, its note,
-- lease and rekeying, and no other field.
abbrev pub bare : Str → RawTransaction → RawTransaction
bare kind txn = record txn {
  txn_type = kind;
  rcv = none;
  amt = none;
  close = none;
  xaid = none;
  aamt = none;
  arcv = none;
  aclose = none;
  asnd = none;
  apid = none;
  apan = none;
  apaa = none;
  apat = none;
  apfa = none;
  apas = none;
}

pub record IsClient (sender : Bytes) (txn : RawTransaction) : Type 0 where
  pub sender_is : txn.snd ≡ sender
  pub fee_le : unwrap_or_zero txn.fee ≤ max_client_fee
  pub no_rekey : txn.rekey ≡ none
  pub no_note : txn.note ≡ none
  pub no_lease : txn.lx ≡ none

pub record IsTransfer (ids : RegistrationGroupIds) (receiver : Bytes) (amount : ℕ)
    (close_to : Option Bytes) (txn : RawTransaction) : Type 0 where
  pub amount_is : unwrap_or_zero txn.aamt ≡ amount
  pub is_only : txn ≡ record (bare axfer txn) {
    xaid = some ids.bingle_asset_id;
    aamt = txn.aamt;
    arcv = some receiver;
    aclose = close_to;
  }

pub record IsClose (receiver : Bytes) (txn : RawTransaction) : Type 0 where
  pub zero_is : unwrap_or_zero txn.amt ≡ 0
  pub is_only :
      txn ≡ record (bare pay txn) { amt = txn.amt; rcv = some receiver; close = some receiver }

-- The assets a call names: Bingle$ for `register`, which has arguments, and no field otherwise.
unfoldable pub assets_for : RegistrationGroupIds → Option (List Bytes) → Option (List ℕ)
assets_for ids none = none
assets_for ids (some args) = some (ids.bingle_asset_id ∷ [])

-- An application call with its on-completion and its arguments.
pub record IsCall (ids : RegistrationGroupIds) (on_complete : Option ℕ) (args : Option (List Bytes))
    (txn : RawTransaction) : Type 0 where
  pub is_only : txn ≡ record (bare appl txn) {
    apid = some ids.bingle_app_id;
    apan = on_complete;
    apaa = args;
    apas = assets_for ids args;
  }
