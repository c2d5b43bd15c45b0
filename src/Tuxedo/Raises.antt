-- ===== src/Tuxedo/Raises.antt =====
-- Which codes `handle_tperrno` turns into which exceptions.
use cpp_atmi.Prelude.{◌≡◌, refl, ◌≢◌, true, false, List, arith, if◌then◌else◌}
use cpp_atmi.Prelude.Int.{ℤ, minus_one, is_pos}
use cpp_atmi.Atmi.Codes.{Errno, tpesvcfail, tpetime, tpesvcerr, tpeblock, tpgotsig}
use cpp_atmi.Atmi.Texts.{Text, Texts, Arg}
use cpp_atmi.Atmi.Calls.{Atmi}
use cpp_atmi.Exceptions.{
  Exception, Class, tuxedo, service, timeout, blocking, interrupt, tperr, is_tuxedo, is_timeout,
  is_diagnostic, tuxedo_exception, service_exception, timeout_exception, blocking_exception,
  interrupt_exception,
}
use cpp_atmi.Method.{Outcome, ok, err}
use cpp_atmi.Tuxedo.{Tuxedo, handle_tperrno}

-- The class that the documentation of `handle_tperrno` names for a code.
pub class_for : Errno → Class
class_for tpesvcerr = service
class_for tpetime = timeout
class_for tpeblock = blocking
class_for tpgotsig = interrupt
class_for e = tuxedo

-- The exception reports the code and has its class. Handlers see a tuxedo_exception that is a
-- timeout_exception exactly for TPETIME and never a diagnostic_exception.
pub record IsFor (e : Errno) (x : Exception) : Type 0 where
  pub code : x.error ≡ tperr e
  pub class : x.class ≡ class_for e
  pub kind : is_tuxedo x.class ≡ true
  pub timed : is_timeout x.class ≡ true → e ≡ tpetime
  pub times : e ≡ tpetime → is_timeout x.class ≡ true
  pub plain : is_diagnostic x.class ≡ false

-- The code of an application that answered TPFAIL.
abbrev pub user_code : ℤ → ℤ
user_code u = if is_pos u then u else minus_one

module _ {W : Type 0} ⦃a : Atmi W⦄ ⦃t : Texts⦄ where
  -- What a call that failed with `e` makes of it.
  abbrev pub Handles : Errno → W → Outcome ℤ → Type 0
  Handles e w (ok v) = (e ≡ tpesvcfail) × (v ≡ user_code (a.tpurcode w))
  Handles e w (err x) = (e ≢ tpesvcfail) × IsFor e x

  pub handle_tperrno-Handles :
      (e : Errno) (msg : Text) (args : List Arg) (c : Tuxedo) (w : W)
      → let (r, c', w') = handle_tperrno e msg args c w in Handles e w r × (c' ≡ c) × (w' ≡ w)
  unfolding handle_tperrno tuxedo_exception service_exception timeout_exception blocking_exception
      interrupt_exception is_tuxedo is_timeout is_diagnostic class_for
  handle_tperrno-Handles tpesvcfail msg args c w = (ground arith, refl, refl)
  handle_tperrno-Handles tpetime msg args c w = (ground arith, refl, refl)
  handle_tperrno-Handles _ msg args c w = (ground arith, refl, refl)
