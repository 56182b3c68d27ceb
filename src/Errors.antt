-- ===== src/Errors.antt =====
-- src/errors.rs: the codes of the errors that reach JavaScript, and results that carry them.
use neemata_proxy.Common.{◌≡◌, refl}
use neemata_proxy.Text.{Text}

pub data Code : Type 0 where
  invalid_proxy_options invalid_application_options unknown_application already_started : Code
  listen_bind_failed unsupported_upstream_type upstream_already_exists upstream_not_found : Code

-- `TypeError` or `Error` in JavaScript.
pub data Kind : Type 0 where
  type_error generic_error : Kind

pub record JsError : Type 0 where
  pub kind : Kind
  pub code : Code
  pub message : Text

pub data Result {ℓ} (X : Type ℓ) : Type ℓ where
  ok : X → Result X
  err : JsError → Result X

infixl 5 ◌>>=◌ ◌>>◌
abbrev pub ◌>>=◌ {ℓ κ} : {X : Type ℓ} {Y : Type κ} → Result X → (X → Result Y) → Result Y
ok a >>= next = next a
err e >>= next = err e

abbrev pub ◌>>◌ {ℓ κ} : {X : Type ℓ} {Y : Type κ} → Result X → Result Y → Result Y
first >> k = first >>= λ _. k

-- errors::throw_type_error
unfoldable pub throw_type_error {ℓ} : {X : Type ℓ} → Code → Text → Result X
throw_type_error code msg = err (record { kind = type_error; code = code; message = msg })

-- Err(errors::generic_error(…))
unfoldable pub throw_generic_error {ℓ} : {X : Type ℓ} → Code → Text → Result X
throw_generic_error code msg = err (record { kind = generic_error; code = code; message = msg })

-- Inversion of a chain that succeeds.
pub >>=-eq-ok {ℓ κ} :
    {X : Type ℓ} {Y : Type κ} (first : Result X) (next : X → Result Y) {b : Y}
    → (first >>= next) ≡ ok b
    → (a : X) × (first ≡ ok a) × (next a ≡ ok b)
>>=-eq-ok (ok a) next h = (a, refl, h)
>>=-eq-ok (err e) next h = cc
