-- ===== src/Registration/Accepts.antt =====
-- What the checks let through: bingle_core/src/blockchain/registration_group.rs.
use bingle_rust.Base.{ℕ, Option, none, some, List, [], ◌∷◌, ◌≡◌, ap, ◌∙◌, find, ==_iff, arith}
use bingle_rust.Base.Eq.{option_eq, option_beq_iff, nat_eq}
use bingle_rust.Base.Str.{str_eq}
use bingle_rust.Turn.ChannelData.{Bytes}
use bingle_rust.Registration.{
  RegistrationGroupIds, RawTransaction, ok, unwrap_or_zero, only_fields, no_app_fields,
  check_shared,
}
use bingle_rust.Registration.Checks.{
  axfer, pay, appl, args_eq, check_asset_transfer, transfer_fields, transfer_values,
  check_payment_close, close_fields, close_values, check_app_call, call_fields, call_values,
  call_arguments,
}
use bingle_rust.Registration.Template.{bare, IsClient, IsTransfer, IsClose, IsCall, assets_for}

transfer_passes :
    (index : ℕ) (t : RawTransaction) (ids : RegistrationGroupIds) (receiver : Bytes) (amount : ℕ)
    (close_to : Option Bytes)
    → unwrap_or_zero t.aamt ≡ amount
    → check_asset_transfer index
        (record (bare axfer t) {
          xaid = some ids.bingle_asset_id;
          aamt = t.aamt;
          arcv = some receiver;
          aclose = close_to;
        })
        ids
        receiver
        amount
        close_to
      ≡ ok tt
unfolding check_asset_transfer transfer_fields no_app_fields only_fields transfer_values find
transfer_passes index t ids receiver amount close_to h = ground (
  arith,
  str_eq.beq_iff axfer axfer,
  option_beq_iff (some ids.bingle_asset_id) (some ids.bingle_asset_id),
  option_beq_iff (some receiver) (some receiver),
  option_beq_iff close_to close_to,
  ==_iff (unwrap_or_zero t.aamt) amount,
)

pub IsTransfer-check_asset_transfer :
    (index : ℕ) (txn : RawTransaction) (ids : RegistrationGroupIds) (receiver : Bytes) (amount : ℕ)
    (close_to : Option Bytes)
    → IsTransfer ids receiver amount close_to txn
    → check_asset_transfer index txn ids receiver amount close_to ≡ ok tt
IsTransfer-check_asset_transfer index txn ids receiver amount close_to m =
    ap (λ t. check_asset_transfer index t ids receiver amount close_to) m.is_only
    ∙ transfer_passes index txn ids receiver amount close_to m.amount_is

close_passes :
    (index : ℕ) (t : RawTransaction) (receiver : Bytes)
    → unwrap_or_zero t.amt ≡ 0
    → check_payment_close index
        (record (bare pay t) { amt = t.amt; rcv = some receiver; close = some receiver })
        receiver
      ≡ ok tt
unfolding check_payment_close close_fields no_app_fields only_fields close_values find
close_passes index t receiver h = ground (
  arith,
  str_eq.beq_iff pay pay,
  option_beq_iff (some receiver) (some receiver),
  ==_iff (unwrap_or_zero t.amt) 0,
)

pub IsClose-check_payment_close :
    (index : ℕ) (txn : RawTransaction) (receiver : Bytes)
    → IsClose receiver txn
    → check_payment_close index txn receiver ≡ ok tt
IsClose-check_payment_close index txn receiver m =
    ap (λ t. check_payment_close index t receiver) m.is_only
    ∙ close_passes index txn receiver m.zero_is

call_passes :
    (index : ℕ) (t : RawTransaction) (ids : RegistrationGroupIds) (on_complete : Option ℕ)
    (args : Option (List Bytes))
    → check_app_call index
        (record (bare appl t) {
          apid = some ids.bingle_app_id;
          apan = on_complete;
          apaa = args;
          apas = assets_for ids args;
        })
        ids
        on_complete
        args
      ≡ ok tt
unfolding check_app_call call_fields only_fields call_values call_arguments assets_for find
call_passes index t ids on_complete none = ground (
  arith,
  str_eq.beq_iff appl appl,
  option_beq_iff (some ids.bingle_app_id) (some ids.bingle_app_id),
  option_beq_iff on_complete on_complete,
)
call_passes index t ids on_complete (some args) = ground (
  arith,
  str_eq.beq_iff appl appl,
  option_beq_iff (some ids.bingle_app_id) (some ids.bingle_app_id),
  option_beq_iff on_complete on_complete,
  option_beq_iff (some args) (some args),
  option_beq_iff (some (ids.bingle_asset_id ∷ [])) (some (ids.bingle_asset_id ∷ [])),
)

pub IsCall-check_app_call :
    (index : ℕ) (txn : RawTransaction) (ids : RegistrationGroupIds) (on_complete : Option ℕ)
    (args : Option (List Bytes))
    → IsCall ids on_complete args txn
    → check_app_call index txn ids on_complete args ≡ ok tt
IsCall-check_app_call index txn ids on_complete args m =
    ap (λ t. check_app_call index t ids on_complete args) m.is_only
    ∙ call_passes index txn ids on_complete args

pub IsClient-check_shared :
    (index : ℕ) (sender : Bytes) (txn : RawTransaction)
    → IsClient sender txn
    → check_shared index sender txn ≡ ok tt
unfolding check_shared
IsClient-check_shared index sender txn m =
    ground (
      arith,
      str_eq.beq_iff txn.snd sender,
      m.sender_is,
      m.fee_le,
      m.no_rekey,
      m.no_note,
      m.no_lease,
    )
