-- ===== src/Registration/Recovered.antt =====
-- What `sign_recovery_group` signs: bingle_core/src/blockchain/registration_group.rs.
use bingle_rust.Base.{◌||◌, none, some, List, ◌≡◌, ◌≢◌, ◌↔◌, ◌∙◌, subst, arith}
use bingle_rust.Base.Eq.{◌=?◌, nat_eq}
use bingle_rust.Base.Str.{Str, str_eq}
use bingle_rust.Turn.ChannelData.{Bytes}
use bingle_rust.Registration.{
  RegistrationGroupIds, RawTransaction, RegistrationGroupError, ok, on_complete_opt_in,
  on_complete_clear_state,
}
use bingle_rust.Registration.Checks.{check_asset_opt_in, check_asset_transfer}
use bingle_rust.Registration.Groups.{
  Libraries, nth, decode, check_recovery, check_funder, app_address, register_call, refuse_if,
}
use bingle_rust.Registration.Template.{IsClient, IsTransfer, IsClose, IsCall}
use bingle_rust.Registration.Matches.{
  check_asset_transfer-IsTransfer, check_app_call-IsCall, check_payment_close-IsClose,
}
use bingle_rust.Registration.Accepts.{
  IsTransfer-check_asset_transfer, IsCall-check_app_call, IsClose-check_payment_close,
}
use bingle_rust.Registration.Steps.{bind_ok, ok_bind, At, step, unstep, decode_lem}

not_own :
    (funder old fresh : Bytes) (e : RegistrationGroupError)
    → (refuse_if ((funder =? old) || (funder =? fresh)) e ≡ ok tt)
      ↔ ((funder ≢ old) × (funder ≢ fresh))
not_own funder old fresh e = ground (arith, str_eq.beq_iff funder old, str_eq.beq_iff funder fresh)

module _ {Key : Type 0} (lib : Libraries Key) where
  -- The transaction that pays the new account its Bingle$, from neither of the client's accounts.
  pub IsFunded : RegistrationGroupIds → Bytes → Bytes → RawTransaction → Type 0
  IsFunded ids old fresh t = (t.snd ≢ old) × (t.snd ≢ fresh) × IsTransfer ids fresh 1 none t

  check_funder-IsFunded :
      (group : List Bytes) (ids : RegistrationGroupIds) (old fresh funder : Bytes)
      → check_funder lib group ids old fresh ≡ ok funder
      → (a : At lib group 4 (IsFunded ids old fresh)) × (funder ≡ a.txn.snd)
  unfolding check_funder IsFunded
  check_funder-IsFunded group ids old fresh funder h =
      let (bytes, at, h1) = bind_ok (nth group 4) _ _ h in
      let (t, decodes, h2) = bind_ok (decode lib 4 bytes) _ _ h1 in
      let (u, other, h3) = bind_ok (refuse_if ((t.snd =? old) || (t.snd =? fresh)) _) _ _ h2 in
      let (v, paid, h4) = bind_ok (check_asset_transfer 4 t ids fresh 1 none) _ _ h3 in
      let o = (not_own t.snd old fresh _).0 other in
      (
        record {
          bytes = bytes;
          txn = t;
          is_at = at;
          decodes = (decode_lem lib 4 bytes t).0 decodes;
          holds = (o.0, o.1, check_asset_transfer-IsTransfer 4 t ids fresh 1 none paid);
        },
        cc,
      )

  IsFunded-check_funder :
      (group : List Bytes) (ids : RegistrationGroupIds) (old fresh : Bytes)
      (a : At lib group 4 (IsFunded ids old fresh))
      → check_funder lib group ids old fresh ≡ ok a.txn.snd
  unfolding check_funder IsFunded
  IsFunded-check_funder group ids old fresh a =
      ok_bind (nth group 4) _ _ a.is_at
      ∙ ok_bind (decode lib 4 a.bytes) _ _ ((decode_lem lib 4 a.bytes a.txn).1 a.decodes)
      ∙ ok_bind (refuse_if ((a.txn.snd =? old) || (a.txn.snd =? fresh)) _) _ _
          ((not_own a.txn.snd old fresh _).1 (a.holds.0, a.holds.1))
      ∙ ok_bind (check_asset_transfer 4 a.txn ids fresh 1 none) _ _
          (IsTransfer-check_asset_transfer 4 a.txn ids fresh 1 none a.holds.2)

  -- The transactions of a recovery: three of the old account, and four of the new one.
  pub record IsRecovery (ids : RegistrationGroupIds) (handle : Str) (old fresh : Bytes)
      (group : List Bytes) : Type 0 where
    pub funding : At lib group 4 (IsFunded ids old fresh)
    pub clear_state : At lib group 0 (λ t. IsClient old t × IsCall ids (some 3) none t)
    pub close_out :
        At lib group 1
          (λ t. IsClient old t × IsTransfer ids funding.txn.snd 0 (some funding.txn.snd) t)
    pub close : At lib group 2 (λ t. IsClient old t × IsClose fresh t)
    pub opt_in : At lib group 3 (λ t. IsClient fresh t × IsTransfer ids t.snd 0 none t)
    pub app_opt_in : At lib group 5 (λ t. IsClient fresh t × IsCall ids (some 1) none t)
    pub payment :
        At lib group 6
          (λ t. IsClient fresh t × IsTransfer ids (app_address lib ids.bingle_app_id) 1 none t)
    pub register :
        At lib group 7 (λ t. IsClient fresh t × IsCall ids none (some (register_call lib handle)) t)

  pub check_recovery-IsRecovery :
      (group : List Bytes) (ids : RegistrationGroupIds) (handle : Str) (old fresh : Bytes)
      → check_recovery lib group ids handle old fresh ≡ ok tt
      → IsRecovery ids handle old fresh group
  unfolding check_recovery
  check_recovery-IsRecovery group ids handle old fresh h =
      let (funder, funded, h0) = bind_ok (check_funder lib group ids old fresh) _ _ h in
      let (f, is) = check_funder-IsFunded group ids old fresh funder funded in
      let (a, h1) =
        step lib group 0 old _ _
          (λ t. check_app_call-IsCall 0 t ids (some on_complete_clear_state) none) _ h0 in
      let (b, h2) =
        step lib group 1 old _ _
          (λ t. check_asset_transfer-IsTransfer 1 t ids funder 0 (some funder)) _ h1 in
      let (c, h3) = step lib group 2 old _ _ (λ t. check_payment_close-IsClose 2 t fresh) _ h2 in
      let (d, h4) =
        step lib group 3 fresh (λ t. check_asset_opt_in 3 t ids) _
          (λ t. check_asset_transfer-IsTransfer 3 t ids t.snd 0 none) _ h3 in
      let (e, h5) =
        step lib group 5 fresh _ _
          (λ t. check_app_call-IsCall 5 t ids (some on_complete_opt_in) none) _ h4 in
      let (g, h6) =
        step lib group 6 fresh _ _
          (λ t. check_asset_transfer-IsTransfer 6 t ids (app_address lib ids.bingle_app_id) 1 none)
          _ h5 in
      let (k, h7) =
        step lib group 7 fresh _ _
          (λ t. check_app_call-IsCall 7 t ids none (some (register_call lib handle))) _ h6 in
      record {
        funding = f;
        clear_state = a;
        close_out =
            subst (λ s. At lib group 1 (λ t. IsClient old t × IsTransfer ids s 0 (some s) t)) is b;
        close = c;
        opt_in = d;
        app_opt_in = e;
        payment = g;
        register = k;
      }

  pub IsRecovery-check_recovery :
      (group : List Bytes) (ids : RegistrationGroupIds) (handle : Str) (old fresh : Bytes)
      → IsRecovery ids handle old fresh group
      → check_recovery lib group ids handle old fresh ≡ ok tt
  unfolding check_recovery
  IsRecovery-check_recovery group ids handle old fresh m =
      let funder = m.funding.txn.snd in
      ok_bind (check_funder lib group ids old fresh) _ _
        (IsFunded-check_funder group ids old fresh m.funding)
      ∙ unstep lib group 0 old _ _
          (λ t. IsCall-check_app_call 0 t ids (some on_complete_clear_state) none) _ m.clear_state
      ∙ unstep lib group 1 old _ _
          (λ t. IsTransfer-check_asset_transfer 1 t ids funder 0 (some funder)) _ m.close_out
      ∙ unstep lib group 2 old _ _ (λ t. IsClose-check_payment_close 2 t fresh) _ m.close
      ∙ unstep lib group 3 fresh (λ t. check_asset_opt_in 3 t ids) _
          (λ t. IsTransfer-check_asset_transfer 3 t ids t.snd 0 none) _ m.opt_in
      ∙ unstep lib group 5 fresh _ _
          (λ t. IsCall-check_app_call 5 t ids (some on_complete_opt_in) none) _ m.app_opt_in
      ∙ unstep lib group 6 fresh _ _
          (λ t. IsTransfer-check_asset_transfer 6 t ids (app_address lib ids.bingle_app_id) 1 none)
          _ m.payment
      ∙ unstep lib group 7 fresh _ _
          (λ t. IsCall-check_app_call 7 t ids none (some (register_call lib handle))) _ m.register
