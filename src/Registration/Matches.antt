-- ===== src/Registration/Matches.antt =====
-- The checks of a transaction and what it may be: bingle_core/src/blockchain/registration_group.rs.
use bingle_rust.Base.{
  ℕ, Bool, true, false, Option, none, some, List, [], ◌∷◌, ◌≡◌, refl, find, not, if◌then◌else◌,
  ==_iff, arith,
}
use bingle_rust.Base.Eq.{◌=?◌, option_eq, option_beq_iff, nat_eq}
use bingle_rust.Base.Str.{Str, str_eq}
use bingle_rust.Turn.ChannelData.{Bytes}
use bingle_rust.Registration.{
  RegistrationGroupIds, RawTransaction, Expected, Checked, ok, refused, panicked, ◌>>=◌, Check,
  RegistrationGroupError, unwrap_or_zero, is_some, only_fields, no_app_fields, check_shared,
}
use bingle_rust.Registration.Checks.{
  axfer, pay, appl, args_eq, check_asset_transfer, transfer_fields, transfer_values,
  check_payment_close, close_fields, close_values, check_app_call, call_fields, call_values,
  call_arguments,
}
use bingle_rust.Registration.Template.{IsClient, IsTransfer, IsClose, IsCall, assets_for}

AreAbsent : List (Str × Bool) → Type 0
AreAbsent [] = Unit {0}
AreAbsent ((name, present) ∷ rest) = (present ≡ false) × AreAbsent rest

only_fields-AreAbsent :
    (index : ℕ) (what : Expected) (fields : List (Str × Bool))
    → only_fields index what fields ≡ ok tt
    → AreAbsent fields
unfolding only_fields find AreAbsent
only_fields-AreAbsent index what [] h = tt
only_fields-AreAbsent index what ((name, false) ∷ rest) h =
    (refl, only_fields-AreAbsent index what rest h)
only_fields-AreAbsent index what ((name, true) ∷ rest) h = cc

then_ok {ℓ} :
    {A : Type ℓ} (c : Check) (rest : Checked A) (a : A)
    → (c >>= (λ u. rest)) ≡ ok a
    → (c ≡ ok tt) × (rest ≡ ok a)
then_ok (ok tt) rest a h = (refl, h)
then_ok (refused e) rest a h = cc
then_ok panicked rest a h = cc

pub check_shared-IsClient :
    (index : ℕ) (sender : Bytes) (txn : RawTransaction)
    → check_shared index sender txn ≡ ok tt
    → IsClient sender txn
unfolding check_shared
check_shared-IsClient index sender txn h = ground (arith, str_eq.beq_iff txn.snd sender)

is_some-absent {ℓ} : {A : Type ℓ} (o : Option A) → is_some o ≡ false → o ≡ none
is_some-absent none h = refl
is_some-absent (some a) h = cc

transfer_values_lem :
    (index : ℕ) (txn : RawTransaction) (ids : RegistrationGroupIds) (receiver : Bytes) (amount : ℕ)
    (close_to : Option Bytes)
    → transfer_values index txn ids receiver amount close_to ≡ ok tt
    → (txn.xaid ≡ some ids.bingle_asset_id)
      × (txn.arcv ≡ some receiver)
      × (unwrap_or_zero txn.aamt ≡ amount)
      × (txn.aclose ≡ close_to)
unfolding transfer_values
transfer_values_lem index txn ids receiver amount close_to h = ground (
  arith,
  option_beq_iff txn.xaid (some ids.bingle_asset_id),
  option_beq_iff txn.arcv (some receiver),
  option_beq_iff txn.aclose close_to,
  ==_iff (unwrap_or_zero txn.aamt) amount,
)

close_values_lem :
    (index : ℕ) (txn : RawTransaction) (receiver : Bytes)
    → close_values index txn receiver ≡ ok tt
    → (txn.rcv ≡ some receiver) × (unwrap_or_zero txn.amt ≡ 0) × (txn.close ≡ some receiver)
unfolding close_values
close_values_lem index txn receiver h = ground (
  arith,
  option_beq_iff txn.rcv (some receiver),
  option_beq_iff txn.close (some receiver),
  ==_iff (unwrap_or_zero txn.amt) 0,
)

no_app_fields_lem :
    (index : ℕ) (what : Expected) (txn : RawTransaction)
    → no_app_fields index what txn ≡ ok tt
    → (txn.apid ≡ none)
      × (txn.apan ≡ none)
      × (txn.apaa ≡ none)
      × (txn.apat ≡ none)
      × (txn.apfa ≡ none)
      × (txn.apas ≡ none)
unfolding no_app_fields AreAbsent
no_app_fields_lem index what txn h =
    let (a, (b, (c, (d, (e, (f, u)))))) = only_fields-AreAbsent index what _ h in
    (
      is_some-absent _ a,
      is_some-absent _ b,
      is_some-absent _ c,
      is_some-absent _ d,
      is_some-absent _ e,
      is_some-absent _ f,
    )

transfer_fields_lem :
    (index : ℕ) (txn : RawTransaction)
    → transfer_fields index txn ≡ ok tt
    → (txn.rcv ≡ none) × (txn.amt ≡ none) × (txn.close ≡ none) × (txn.asnd ≡ none)
unfolding transfer_fields AreAbsent
transfer_fields_lem index txn h =
    let (a, (b, (c, (d, u)))) = only_fields-AreAbsent index _ _ h in
    (is_some-absent _ a, is_some-absent _ b, is_some-absent _ c, is_some-absent _ d)

close_fields_lem :
    (index : ℕ) (txn : RawTransaction)
    → close_fields index txn ≡ ok tt
    → (txn.xaid ≡ none)
      × (txn.aamt ≡ none)
      × (txn.arcv ≡ none)
      × (txn.aclose ≡ none)
      × (txn.asnd ≡ none)
unfolding close_fields AreAbsent
close_fields_lem index txn h =
    let (a, (b, (c, (d, (e, u))))) = only_fields-AreAbsent index _ _ h in
    (
      is_some-absent _ a,
      is_some-absent _ b,
      is_some-absent _ c,
      is_some-absent _ d,
      is_some-absent _ e,
    )

call_fields_lem :
    (index : ℕ) (what : Expected) (txn : RawTransaction)
    → call_fields index what txn ≡ ok tt
    → (txn.rcv ≡ none)
      × (txn.amt ≡ none)
      × (txn.close ≡ none)
      × (txn.xaid ≡ none)
      × (txn.aamt ≡ none)
      × (txn.arcv ≡ none)
      × (txn.aclose ≡ none)
      × (txn.asnd ≡ none)
      × (txn.apat ≡ none)
      × (txn.apfa ≡ none)
unfolding call_fields AreAbsent
call_fields_lem index what txn h =
    let (a, (b, (c, (d, (e, (f, (g, (h1, (j, (k, u)))))))))) = only_fields-AreAbsent index _ _ h in
    (
      is_some-absent _ a,
      is_some-absent _ b,
      is_some-absent _ c,
      is_some-absent _ d,
      is_some-absent _ e,
      is_some-absent _ f,
      is_some-absent _ g,
      is_some-absent _ h1,
      is_some-absent _ j,
      is_some-absent _ k,
    )

unless_refused :
    (b : Bool) (e : RegistrationGroupError) (rest : Check)
    → (if not b then refused e else rest) ≡ ok tt
    → (b ≡ true) × (rest ≡ ok tt)
unless_refused true e rest h = (refl, h)
unless_refused false e rest h = cc

pub check_asset_transfer-IsTransfer :
    (index : ℕ) (txn : RawTransaction) (ids : RegistrationGroupIds) (receiver : Bytes) (amount : ℕ)
    (close_to : Option Bytes)
    → check_asset_transfer index txn ids receiver amount close_to ≡ ok tt
    → IsTransfer ids receiver amount close_to txn
unfolding check_asset_transfer
check_asset_transfer-IsTransfer index txn ids receiver amount close_to h =
    let (kind, h1) = unless_refused (txn.txn_type =? axfer) _ _ h in
    let (fields, h2) = then_ok (transfer_fields index txn) _ _ h1 in
    let (no_app, h3) = then_ok (no_app_fields index _ txn) _ _ h2 in
    let f = transfer_fields_lem index txn fields in
    let a = no_app_fields_lem index _ txn no_app in
    let v = transfer_values_lem index txn ids receiver amount close_to h3 in
    let k = (str_eq.beq_iff _ _).0 kind in
    record {
      amount_is = v.2;
      is_only = λ i. record txn {
        txn_type = k i;
        rcv = f.0 i;
        amt = f.1 i;
        close = f.2 i;
        xaid = v.0 i;
        arcv = v.1 i;
        aclose = v.3 i;
        asnd = f.3 i;
        apid = a.0 i;
        apan = a.1 i;
        apaa = a.2 i;
        apat = a.3 i;
        apfa = a.4 i;
        apas = a.5 i;
      };
    }

pub check_payment_close-IsClose :
    (index : ℕ) (txn : RawTransaction) (receiver : Bytes)
    → check_payment_close index txn receiver ≡ ok tt
    → IsClose receiver txn
unfolding check_payment_close
check_payment_close-IsClose index txn receiver h =
    let (kind, h1) = unless_refused (txn.txn_type =? pay) _ _ h in
    let (fields, h2) = then_ok (close_fields index txn) _ _ h1 in
    let (no_app, h3) = then_ok (no_app_fields index _ txn) _ _ h2 in
    let f = close_fields_lem index txn fields in
    let a = no_app_fields_lem index _ txn no_app in
    let v = close_values_lem index txn receiver h3 in
    let k = (str_eq.beq_iff _ _).0 kind in
    record {
      zero_is = v.1;
      is_only = λ i. record txn {
        txn_type = k i;
        xaid = f.0 i;
        aamt = f.1 i;
        arcv = f.2 i;
        aclose = f.3 i;
        asnd = f.4 i;
        rcv = v.0 i;
        close = v.2 i;
        apid = a.0 i;
        apan = a.1 i;
        apaa = a.2 i;
        apat = a.3 i;
        apfa = a.4 i;
        apas = a.5 i;
      };
    }

call_arguments_lem :
    (index : ℕ) (what : Expected) (txn : RawTransaction) (ids : RegistrationGroupIds)
    (args : Option (List Bytes))
    → call_arguments index what txn ids args ≡ ok tt
    → (txn.apaa ≡ args) × (txn.apas ≡ assets_for ids args)
unfolding call_arguments AreAbsent assets_for
call_arguments_lem index what txn ids none h =
    let (a, (b, u)) = only_fields-AreAbsent index _ _ h in (is_some-absent _ a, is_some-absent _ b)
call_arguments_lem index what txn ids (some args) h = ground (
  arith,
  option_beq_iff txn.apaa (some args),
  option_beq_iff txn.apas (some (ids.bingle_asset_id ∷ [])),
)

call_values_lem :
    (index : ℕ) (what : Expected) (txn : RawTransaction) (ids : RegistrationGroupIds)
    (on_complete : Option ℕ) (args : Option (List Bytes))
    → call_values index what txn ids on_complete args ≡ ok tt
    → (txn.apid ≡ some ids.bingle_app_id)
      × (txn.apan ≡ on_complete)
      × (txn.apaa ≡ args)
      × (txn.apas ≡ assets_for ids args)
unfolding call_values
call_values_lem index what txn ids on_complete args h =
    let (app, h1) = unless_refused (txn.apid =? some ids.bingle_app_id) _ _ h in
    let (complete, h2) = unless_refused (txn.apan =? on_complete) _ _ h1 in
    let (a, s) = call_arguments_lem index what txn ids args h2 in
    ((option_beq_iff _ _).0 app, (option_beq_iff _ _).0 complete, a, s)

pub check_app_call-IsCall :
    (index : ℕ) (txn : RawTransaction) (ids : RegistrationGroupIds) (on_complete : Option ℕ)
    (args : Option (List Bytes))
    → check_app_call index txn ids on_complete args ≡ ok tt
    → IsCall ids on_complete args txn
unfolding check_app_call
check_app_call-IsCall index txn ids on_complete args h =
    let (kind, h1) = unless_refused (txn.txn_type =? appl) _ _ h in
    let (fields, h2) = then_ok (call_fields index _ txn) _ _ h1 in
    let f = call_fields_lem index _ txn fields in
    let v = call_values_lem index _ txn ids on_complete args h2 in
    let k = (str_eq.beq_iff _ _).0 kind in
    record {
      is_only = λ i. record txn {
        txn_type = k i;
        rcv = f.0 i;
        amt = f.1 i;
        close = f.2 i;
        xaid = f.3 i;
        aamt = f.4 i;
        arcv = f.5 i;
        aclose = f.6 i;
        asnd = f.7 i;
        apat = f.8 i;
        apfa = f.9 i;
        apid = v.0 i;
        apan = v.1 i;
        apaa = v.2 i;
        apas = v.3 i;
      };
    }
