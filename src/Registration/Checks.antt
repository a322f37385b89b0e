-- ===== src/Registration/Checks.antt =====
-- The templates of the client's transactions (bingle_core/src/blockchain/registration_group.rs).
use bingle_rust.Base.{
  ℕ, min, not, Option, none, some, List, [], ◌∷◌, ◌++◌, ◌==◌, length, if◌then◌else◌,
}
use bingle_rust.Base.Eq.{Eq, ◌=?◌, option_eq, nat_eq, list_eq}
use bingle_rust.Base.Str.{Str, str_eq}
use bingle_rust.Turn.ChannelData.{Bytes, to_be_bytes}
use bingle_rust.Registration.{
  RegistrationGroupIds, RawTransaction, Expected, Check, ok, refused, ◌>>=◌, template,
  bingle_transfer, account_close, dapp_opt_in, dapp_clear_state, dapp_register, type_is, asset_is,
  other_receiver, amount_is, other_close_to, not_zero, app_is, on_complete_is, other_arguments,
  other_assets, only_fields, no_app_fields, is_some, unwrap_or_zero, on_complete_opt_in,
  on_complete_clear_state,
}

instance abbrev pub args_eq : Eq (List Bytes)
args_eq = list_eq ⦃e = str_eq⦄

abbrev pub axfer : Str
axfer = b'a' ∷ b'x' ∷ b'f' ∷ b'e' ∷ b'r' ∷ []

abbrev pub pay : Str
pay = b'p' ∷ b'a' ∷ b'y' ∷ []

abbrev pub appl : Str
appl = b'a' ∷ b'p' ∷ b'p' ∷ b'l' ∷ []

unfoldable pub transfer_fields : ℕ → RawTransaction → Check
transfer_fields index txn = only_fields index bingle_transfer (
    (b'r' ∷ b'c' ∷ b'v' ∷ [], is_some txn.rcv)
    ∷ (b'a' ∷ b'm' ∷ b't' ∷ [], is_some txn.amt)
    ∷ (b'c' ∷ b'l' ∷ b'o' ∷ b's' ∷ b'e' ∷ [], is_some txn.close)
    ∷ (b'a' ∷ b's' ∷ b'n' ∷ b'd' ∷ [], is_some txn.asnd)
    ∷ [])

unfoldable pub transfer_values :
    ℕ → RawTransaction → RegistrationGroupIds → Bytes → ℕ → Option Bytes → Check
transfer_values index txn ids receiver amount close_to =
    if not (txn.xaid =? some ids.bingle_asset_id)
    then refused (template index bingle_transfer (asset_is txn.xaid))
    else if not (txn.arcv =? some receiver)
    then refused (template index bingle_transfer other_receiver)
    else if not (unwrap_or_zero txn.aamt == amount)
    then refused (template index bingle_transfer (amount_is (unwrap_or_zero txn.aamt) amount))
    else if not (txn.aclose =? close_to)
    then refused (template index bingle_transfer other_close_to)
    else ok tt

unfoldable pub check_asset_transfer :
    ℕ → RawTransaction → RegistrationGroupIds → Bytes → ℕ → Option Bytes → Check
check_asset_transfer index txn ids receiver amount close_to =
    if not (txn.txn_type =? axfer)
    then refused (template index bingle_transfer (type_is txn.txn_type))
    else do
      _ ← transfer_fields index txn
      _ ← no_app_fields index bingle_transfer txn
      transfer_values index txn ids receiver amount close_to

abbrev pub check_asset_opt_in : ℕ → RawTransaction → RegistrationGroupIds → Check
check_asset_opt_in index txn ids = check_asset_transfer index txn ids txn.snd 0 none

unfoldable pub close_fields : ℕ → RawTransaction → Check
close_fields index txn = only_fields index account_close (
    (b'x' ∷ b'a' ∷ b'i' ∷ b'd' ∷ [], is_some txn.xaid)
    ∷ (b'a' ∷ b'a' ∷ b'm' ∷ b't' ∷ [], is_some txn.aamt)
    ∷ (b'a' ∷ b'r' ∷ b'c' ∷ b'v' ∷ [], is_some txn.arcv)
    ∷ (b'a' ∷ b'c' ∷ b'l' ∷ b'o' ∷ b's' ∷ b'e' ∷ [], is_some txn.aclose)
    ∷ (b'a' ∷ b's' ∷ b'n' ∷ b'd' ∷ [], is_some txn.asnd)
    ∷ [])

unfoldable pub close_values : ℕ → RawTransaction → Bytes → Check
close_values index txn receiver =
    if not (txn.rcv =? some receiver)
    then refused (template index account_close other_receiver)
    else if not (unwrap_or_zero txn.amt == 0)
    then refused (template index account_close not_zero)
    else if not (txn.close =? some receiver)
    then refused (template index account_close other_close_to)
    else ok tt

unfoldable pub check_payment_close : ℕ → RawTransaction → Bytes → Check
check_payment_close index txn receiver =
    if not (txn.txn_type =? pay)
    then refused (template index account_close (type_is txn.txn_type))
    else do
      _ ← close_fields index txn
      _ ← no_app_fields index account_close txn
      close_values index txn receiver

-- What an application call is for.
unfoldable pub call_kind : Option ℕ → Expected
call_kind none = dapp_register
call_kind (some n) =
    if n == on_complete_opt_in
    then dapp_opt_in
    else if n == on_complete_clear_state
    then dapp_clear_state
    else dapp_register

unfoldable pub call_fields : ℕ → Expected → RawTransaction → Check
call_fields index what txn = only_fields index what (
    (b'r' ∷ b'c' ∷ b'v' ∷ [], is_some txn.rcv)
    ∷ (b'a' ∷ b'm' ∷ b't' ∷ [], is_some txn.amt)
    ∷ (b'c' ∷ b'l' ∷ b'o' ∷ b's' ∷ b'e' ∷ [], is_some txn.close)
    ∷ (b'x' ∷ b'a' ∷ b'i' ∷ b'd' ∷ [], is_some txn.xaid)
    ∷ (b'a' ∷ b'a' ∷ b'm' ∷ b't' ∷ [], is_some txn.aamt)
    ∷ (b'a' ∷ b'r' ∷ b'c' ∷ b'v' ∷ [], is_some txn.arcv)
    ∷ (b'a' ∷ b'c' ∷ b'l' ∷ b'o' ∷ b's' ∷ b'e' ∷ [], is_some txn.aclose)
    ∷ (b'a' ∷ b's' ∷ b'n' ∷ b'd' ∷ [], is_some txn.asnd)
    ∷ (b'a' ∷ b'p' ∷ b'a' ∷ b't' ∷ [], is_some txn.apat)
    ∷ (b'a' ∷ b'p' ∷ b'f' ∷ b'a' ∷ [], is_some txn.apfa)
    ∷ [])

-- The arguments of `register(handle)`, given the four bytes of the method's selector. A handle that
-- is too long has the length 65535 written before it.
unfoldable pub register_args : Bytes → Str → List Bytes
register_args selector handle = selector ∷ (to_be_bytes (min (length handle) 65535) ++ handle) ∷ []

-- Only `register` may carry arguments, and Bingle$ as its only asset.
unfoldable pub call_arguments :
    ℕ → Expected → RawTransaction → RegistrationGroupIds → Option (List Bytes) → Check
call_arguments index what txn ids none = only_fields index what (
    (b'a' ∷ b'p' ∷ b'a' ∷ b'a' ∷ [], is_some txn.apaa)
    ∷ (b'a' ∷ b'p' ∷ b'a' ∷ b's' ∷ [], is_some txn.apas)
    ∷ [])
call_arguments index what txn ids (some args) =
    if not (txn.apaa =? some args)
    then refused (template index what other_arguments)
    else if not (txn.apas =? some (ids.bingle_asset_id ∷ []))
    then refused (template index what other_assets)
    else ok tt

unfoldable pub call_values :
    ℕ → Expected → RawTransaction → RegistrationGroupIds → Option ℕ → Option (List Bytes) → Check
call_values index what txn ids on_complete args =
    if not (txn.apid =? some ids.bingle_app_id)
    then refused (template index what (app_is txn.apid))
    else if not (txn.apan =? on_complete)
    then refused (template index what (on_complete_is txn.apan))
    else call_arguments index what txn ids args

-- The last argument is what `register` must be called with, for that call.
unfoldable pub check_app_call :
    ℕ → RawTransaction → RegistrationGroupIds → Option ℕ → Option (List Bytes) → Check
check_app_call index txn ids on_complete args =
    let what = call_kind on_complete in
    if not (txn.txn_type =? appl)
    then refused (template index what (type_is txn.txn_type))
    else do _ ← call_fields index what txn; call_values index what txn ids on_complete args
