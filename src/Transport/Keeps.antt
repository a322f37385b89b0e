-- ===== src/Transport/Keeps.antt =====
-- Invariants of the transport's steps, one rule for each way to build a step.
use bingle_rust.Base.{◌≡◌, ◌≢◌, ap, ◌∙◌, refl}
use bingle_rust.Transport.State.{
  Transport, M, Result, ok, err, panic, ◌>>=◌, pure, raise, Error, endpoint_key, key_result,
  reset_session, handle_new_dtls_session,
}
use bingle_rust.Net.Endpoint.{
  NetworkEndpoint, NetworkEndpointKey, KeyOutcome, key, unset, incomplete, get_key,
}

-- `m` keeps `P`, whatever its result.
pub record Keeps {A : Type 0} (P : Transport → Type 0) (m : M A) : Type 0 where
  pub at : (t : Transport) → P t → P (m t).1

module _ {A : Type 0} (P : Transport → Type 0) where
  pub Keeps-pure : (a : A) → Keeps P (pure a)
  Keeps-pure a = record { at = λ t h. h }

  pub Keeps-raise : (e : Error) → Keeps P (raise {A = A} e)
  Keeps-raise e = record { at = λ t h. h }

module _ {A B : Type 0} (P : Transport → Type 0) where
  Keeps-after :
      (r : Result A) (f : A → M B) → ((a : A) → Keeps P (f a)) → Keeps P ((λ t. (r, t)) >>= f)
  Keeps-after (ok a) f k = k a
  Keeps-after (err e) f k = record { at = λ t h. h }
  Keeps-after panic f k = record { at = λ t h. h }

  pub Keeps-bind :
      (m : M A) (f : A → M B) → Keeps P m → ((a : A) → Keeps P (f a)) → Keeps P (m >>= f)
  Keeps-bind m f km kf = record {
    at = λ t h. let (r, t') = m t in (Keeps-after r f kf).at t' (km.at t h);
  }

result_never :
    {A B : Type 0} (r : Result A) (t : Transport) (f : A → M B) (b : B)
    → ((a : A) → r ≡ ok a → (f a t).0 ≢ ok b)
    → (((λ u. (r, t)) >>= f) t).0 ≢ ok b
result_never (ok a) t f b never h = never a refl h
result_never (err e) t f b never h = cc
result_never panic t f b never h = cc

-- A step does not return `b` if what follows each of its values does not.
pub bind_never :
    {A B : Type 0} (m : M A) (f : A → M B) (b : B) (t : Transport)
    → ((a : A) → (m t).0 ≡ ok a → (f a (m t).1).0 ≢ ok b)
    → ((m >>= f) t).0 ≢ ok b
bind_never m f b t never = result_never (m t).0 (m t).1 f b never

-- A step that returns a value goes on with it.
pub bind_ok :
    {A B : Type 0} (m : M A) (f : A → M B) (a : A) (t : Transport)
    → (m t).0 ≡ ok a
    → (m >>= f) t ≡ f a (m t).1
bind_ok m f a t e = rw e refl

-- What follows the key of an endpoint may use that it is the key.
pub Keeps-key_result :
    {A : Type 0} (P : Transport → Type 0) (o : KeyOutcome) (body : NetworkEndpointKey → M A)
    → ((j : NetworkEndpointKey) → o ≡ key j → Keeps P (body j))
    → Keeps P ((λ t. (key_result o, t)) >>= body)
Keeps-key_result P (key j) body kb = kb j refl
Keeps-key_result P unset body kb = record { at = λ t h. h }
Keeps-key_result P incomplete body kb = record { at = λ t h. h }

-- A new session keeps what the reset of the other peers' state keeps.
module _ (P : Transport → Type 0) (k : NetworkEndpointKey) where
  pub Keeps-handle_new_dtls_session :
      (e : NetworkEndpoint)
      → get_key e ≢ key k
      → ((j : NetworkEndpointKey) → j ≢ k → Keeps P (reset_session j))
      → Keeps P (handle_new_dtls_session e)
  unfolding handle_new_dtls_session endpoint_key
  Keeps-handle_new_dtls_session e other kb =
      Keeps-key_result P (get_key e) reset_session (λ j h. kb j (λ same. other (h ∙ ap key same)))

pub Keeps-new_session :
    (P : Transport → Type 0) (e : NetworkEndpoint)
    → ((j : NetworkEndpointKey) → Keeps P (reset_session j))
    → Keeps P (handle_new_dtls_session e)
unfolding handle_new_dtls_session endpoint_key
Keeps-new_session P e kb = Keeps-key_result P (get_key e) reset_session (λ j h. kb j)
