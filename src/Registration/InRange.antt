-- ===== src/Registration/InRange.antt =====
-- No position is out of a group's range: bingle_core/src/blockchain/registration_group.rs.
use bingle_rust.Base.{
  if◌then◌else◌, zero, suc, ◌<◌, ℕ, Bool, true, false, not, Option, none, some, List, [], ◌∷◌, ◌≡◌,
  ◌≢◌, refl, length, arith,
}
use bingle_rust.Base.Eq.{◌=?◌, nat_eq, option_eq}
use bingle_rust.Base.Str.{Str, str_eq}
use bingle_rust.Turn.ChannelData.{Bytes}
use bingle_rust.Registration.{
  RegistrationGroupIds, RawTransaction, RegistrationGroupError, Checked, ok, refused, panicked,
  ◌>>=◌,
}
use bingle_rust.Registration.Checks.{check_asset_transfer, check_app_call}
use bingle_rust.Registration.Groups.{nth, check_size, check_sign_indexes}
use bingle_rust.Registration.Groups.{or_refuse}
use bingle_rust.Registration.{Check, only_fields, no_app_fields, check_shared, Expected}
use bingle_rust.Registration.Checks.{
  transfer_fields, transfer_values, check_payment_close, close_fields, close_values, call_fields,
  call_values, call_arguments, axfer, pay, appl,
}

-- A check that does not panic.
pub bind_in_range {ℓ κ} :
    {A : Type ℓ} {B : Type κ} (c : Checked A) (f : A → Checked B)
    → c ≢ panicked
    → ((a : A) → c ≡ ok a → f a ≢ panicked)
    → (c >>= f) ≢ panicked
bind_in_range (ok a) f h k = k a refl
bind_in_range (refused e) f h k = λ p. cc
bind_in_range panicked f h k = λ p. h refl

pub ok_in_range {ℓ} : {A : Type ℓ} (a : A) → ok a ≢ panicked
ok_in_range a = λ p. cc

pub nth_in_range :
    (index : ℕ) (group : List Bytes) → index < length group → nth group index ≢ panicked
unfolding nth
nth_in_range index [] h = let z : ⊥ = omega arith in elim z [ ]
nth_in_range zero (b ∷ bs) h = ok_in_range b
nth_in_range (suc n) (b ∷ bs) h = nth_in_range n bs (omega arith)

pub only_fields_in_range :
    (index : ℕ) (what : Expected) (fields : List (Str × Bool))
    → only_fields index what fields ≢ panicked
unfolding only_fields
only_fields_in_range index what fields = λ p. ground arith

pub then_in_range {ℓ} :
    {A : Type ℓ} (c : Check) (rest : Checked A)
    → c ≢ panicked
    → rest ≢ panicked
    → (c >>= (λ u. rest)) ≢ panicked
then_in_range c rest h k = bind_in_range c (λ u. rest) h (λ a e. k)

pub if_in_range :
    (b : Bool) (e : RegistrationGroupError) (c : Check)
    → c ≢ panicked
    → (if b then refused e else c) ≢ panicked
if_in_range true e c h = λ p. cc
if_in_range false e c h = h

pub transfer_values_in_range :
    (index : ℕ) (txn : RawTransaction) (ids : RegistrationGroupIds) (receiver : Bytes) (amount : ℕ)
    (close_to : Option Bytes)
    → transfer_values index txn ids receiver amount close_to ≢ panicked
unfolding transfer_values
transfer_values_in_range index txn ids receiver amount close_to = λ p. ground arith

pub transfer_in_range :
    (index : ℕ) (txn : RawTransaction) (ids : RegistrationGroupIds) (receiver : Bytes) (amount : ℕ)
    (close_to : Option Bytes)
    → check_asset_transfer index txn ids receiver amount close_to ≢ panicked
unfolding check_asset_transfer transfer_fields no_app_fields
transfer_in_range index txn ids receiver amount close_to =
    if_in_range (not (txn.txn_type =? axfer)) _ _ (
      then_in_range (transfer_fields index txn) _ (only_fields_in_range index _ _) (
        then_in_range (no_app_fields index _ txn) _ (only_fields_in_range index _ _)
          (transfer_values_in_range index txn ids receiver amount close_to)))

pub close_values_in_range :
    (index : ℕ) (txn : RawTransaction) (receiver : Bytes)
    → close_values index txn receiver ≢ panicked
unfolding close_values
close_values_in_range index txn receiver = λ p. ground arith

pub close_in_range :
    (index : ℕ) (txn : RawTransaction) (receiver : Bytes)
    → check_payment_close index txn receiver ≢ panicked
unfolding check_payment_close close_fields no_app_fields
close_in_range index txn receiver = if_in_range (not (txn.txn_type =? pay)) _ _ (
    then_in_range (close_fields index txn) _ (only_fields_in_range index _ _) (
      then_in_range (no_app_fields index _ txn) _ (only_fields_in_range index _ _)
        (close_values_in_range index txn receiver)))

pub arguments_in_range :
    (index : ℕ) (what : Expected) (txn : RawTransaction) (ids : RegistrationGroupIds)
    (args : Option (List Bytes))
    → call_arguments index what txn ids args ≢ panicked
unfolding call_arguments
arguments_in_range index what txn ids none = only_fields_in_range index what _
arguments_in_range index what txn ids (some args) = λ p. ground arith

pub call_in_range :
    (index : ℕ) (txn : RawTransaction) (ids : RegistrationGroupIds) (on_complete : Option ℕ)
    (args : Option (List Bytes))
    → check_app_call index txn ids on_complete args ≢ panicked
unfolding check_app_call call_fields call_values
call_in_range index txn ids on_complete args = if_in_range (not (txn.txn_type =? appl)) _ _ (
    then_in_range (call_fields index _ txn) _ (only_fields_in_range index _ _) (
      if_in_range (not (txn.apid =? some ids.bingle_app_id)) _ _ (
        if_in_range (not (txn.apan =? on_complete)) _ _ (arguments_in_range index _ txn ids args))))

pub or_refuse_in_range {ℓ} :
    {A : Type ℓ} (o : Option A) (e : RegistrationGroupError) → or_refuse o e ≢ panicked
or_refuse_in_range none e = λ p. cc
or_refuse_in_range (some a) e = λ p. cc

pub size_in_range : (texts : List Str) (allowed : List ℕ) → check_size texts allowed ≢ panicked
unfolding check_size
size_in_range texts allowed = λ p. ground arith

pub indexes_in_range : (indexes wanted : List ℕ) → check_sign_indexes indexes wanted ≢ panicked
unfolding check_sign_indexes
indexes_in_range indexes wanted = λ p. ground arith

pub shared_in_range :
    (index : ℕ) (sender : Bytes) (txn : RawTransaction) → check_shared index sender txn ≢ panicked
unfolding check_shared
shared_in_range index sender txn = λ p. ground arith
