-- ===== src/Tuxedo.antt =====
-- include/atmi/tuxedo.hpp and src/tuxedo.cpp: the class `tuxedo`, base of all the others.
pub mod Flags
pub mod Masks
pub mod Raises
pub mod Reports
pub mod Contexts
pub mod Setters
use cpp_atmi.Prelude.{
  ℕ, ◌≤◌, ◌<◌, ◌≡◌, String, Bool, true, false, not, Option, none, some, List, [], ◌∷◌, arith,
  if◌then◌else◌,
}
use cpp_atmi.Prelude.Int.{ℤ, pos, minus_one, is_neg, is_pos, eqb}
use cpp_atmi.Atmi.Codes.{
  Constants, Errno, tpeinval, tpeperm, tpenoent, tpeitype, tpeotype, tpetran, tpeproto, tpesystem,
  tpeos, tpelimit, tpeblock, tpgotsig, tpesvcerr, tpetime, tpesvcfail,
}
use cpp_atmi.Atmi.Codes
use cpp_atmi.Atmi.Texts.{Text, Texts, Arg, num, code_of, bytes}
use cpp_atmi.Atmi.Calls.{Ptr, Atmi}
use cpp_atmi.Exceptions.{
  tuxedo_exception, service_exception, timeout_exception, blocking_exception, interrupt_exception,
}
use cpp_atmi.Method.{
  Method, ok, err, pure, throw, this, assign, reads, calls, does, ◌>>=◌, ◌>>◌, when,
}
use Flags.{set, unset}

pub record Tuxedo : Type 0 where
  pub flags : ℕ
  pub catd : ℕ
  pub errorno : Errno
  pub errornodetail : ℤ
  pub context : ℤ

-- CATD_ATMI_SET
abbrev pub catd_atmi_set : ℕ
catd_atmi_set = 100

-- A message of the catalogue, with the text to use where the catalogue has none.
unfoldable pub message : ⦃t : Texts⦄ → ℕ → ℕ → String → Text
message ⦃t⦄ catd n default = t.catgets catd catd_atmi_set n (bytes default)

-- The setters of the flags. `set` and `unset` return the new flags, and the calls discard them.
module _ {W : Type 0} ⦃k : Constants⦄ where
  unfoldable pub set_flags : ℕ → Method Tuxedo W (Unit {0})
  set_flags f = this (λ c. set c.flags f) >>= λ _. pure tt

  unfoldable pub unset_flags : ℕ → Method Tuxedo W (Unit {0})
  unset_flags f = this (λ c. unset c.flags f) >>= λ _. pure tt

  unfoldable pub reset_flags : ℕ → Method Tuxedo W (Unit {0})
  reset_flags f = do
    assign (λ c. record c { flags = k.tpnoflags })
    this (λ c. set c.flags f) >>= λ _. pure tt

module _ {W : Type 0} ⦃a : Atmi W⦄ where
  unfoldable pub construct : ⦃k : Constants⦄ → W → Tuxedo × W
  construct ⦃k⦄ w =
      let (c, w') = a.catopen w in
      (
        record {
          flags = k.tpnoflags;
          catd = c;
          errorno = Codes.Errno.unlisted (pos 0);
          errornodetail = pos 0;
          context = pos 0;
        },
        w',
      )

  -- The destructor.
  unfoldable pub destroy : Tuxedo → W → W
  destroy c w = a.catclose c.catd w

  unfoldable pub update_errno : Method Tuxedo W (Unit {0})
  update_errno = do
    e ← reads a.tperrno
    d ← reads a.tperrordetail
    assign (λ c. record c { errorno = e; errornodetail = d })

  unfoldable pub free : Ptr → Method Tuxedo W (Unit {0})
  free none = pure tt
  free (some p) = does (a.tpfree p)

  unfoldable pub set_context : ℤ → Method Tuxedo W (Unit {0})
  set_context ctxt = assign (λ c. record c { context = ctxt })

-- The member functions that throw.
module _ {W : Type 0} ⦃a : Atmi W⦄ ⦃t : Texts⦄ where
  -- `throw tuxedo_exception ( tperrno, catgets ( _catd, CATD_ATMI_SET, n, default), args )`
  unfoldable pub fail : {A : Type 0} → ℕ → String → List Arg → Method Tuxedo W A
  unfolding message
  fail n default args = do
    catd ← this (λ c. c.catd)
    e ← reads a.tperrno
    throw (tuxedo_exception e (message catd n default) args)

  unfoldable pub non_null : ℕ → String → Ptr → Method Tuxedo W Ptr
  unfolding fail
  non_null n default none = fail n default []
  non_null n default (some p) = pure (some p)

  unfoldable pub allocate : Text → Option Text → ℕ → Method Tuxedo W Ptr
  unfolding update_errno non_null
  allocate type subtype size = do
    buffer ← calls (a.tpalloc type subtype size)
    update_errno
    non_null 28 "TPALLOCATE failed. Check ULOG for more information." buffer

  unfoldable pub extend : Ptr → ℕ → Method Tuxedo W Ptr
  unfolding update_errno non_null
  extend buff extent = do
    b ← calls (a.tprealloc buff extent)
    update_errno
    non_null 29 "TPREALLOC failed. Check ULOG for more information." b

  unfoldable pub non_negative : ℕ → String → ℤ → Method Tuxedo W ℤ
  unfolding fail
  non_negative n default rc = if is_neg rc then fail n default [] else pure rc

  unfoldable pub begin : ℤ → Method Tuxedo W ℤ
  unfolding update_errno non_negative
  begin timeout = do
    rc ← calls (a.tpbegin timeout)
    update_errno
    non_negative 30 "TPBEGIN failed. Check ULOG for more information." rc

  unfoldable pub commit : Method Tuxedo W ℤ
  unfolding update_errno non_negative
  commit = do
    rc ← calls a.tpcommit
    update_errno
    non_negative 31 "TPCOMMIT failed. Check ULOG for more information." rc

  unfoldable pub abort : Method Tuxedo W ℤ
  unfolding update_errno non_negative
  abort = do
    rc ← calls a.tpabort
    update_errno
    non_negative 32 "TPABORT failed. Check ULOG for more information." rc

  -- The branch of `switch_context` that knows the current context.
  unfoldable pub enter_context : ℤ → ℤ → Method Tuxedo W (Unit {0})
  unfolding fail
  enter_context own ctxt = when (not (eqb own ctxt)) do
    rc ← calls (a.tpsetctxt own)
    when (is_neg rc) (fail 35 "Context switch failed ( target context was %d )." (num own ∷ []))

  get_context : Method Tuxedo W (ℤ × ℤ)
  get_context c w = let (rc, ctxt, w') = a.tpgetctxt w in (ok (rc, ctxt), c, w')

  unfoldable pub switch_context : Method Tuxedo W (Unit {0})
  unfolding get_context enter_context fail
  switch_context = do
    own ← this (λ c. c.context)
    when (is_pos own) do
      current ← get_context
      if is_neg current.0
          then fail 34 "Context switch failed while calling tpgetctxt ( target context was %d )."
              (num own ∷ [])
          else enter_context own current.1

  unfoldable pub handle_tperrno : Errno → Text → List Arg → Method Tuxedo W ℤ
  unfolding message
  handle_tperrno tpeinval msg args = throw (tuxedo_exception tpeinval msg args)
  handle_tperrno tpeperm msg args = throw (tuxedo_exception tpeperm msg args)
  handle_tperrno tpenoent msg args = throw (tuxedo_exception tpenoent msg args)
  handle_tperrno tpeitype msg args = throw (tuxedo_exception tpeitype msg args)
  handle_tperrno tpeotype msg args = throw (tuxedo_exception tpeotype msg args)
  handle_tperrno tpetran msg args = throw (tuxedo_exception tpetran msg args)
  handle_tperrno tpeproto msg args = throw (tuxedo_exception tpeproto msg args)
  handle_tperrno tpesystem msg args = throw (tuxedo_exception tpesystem msg args)
  handle_tperrno tpeos msg args = throw (tuxedo_exception tpeos msg args)
  handle_tperrno tpelimit msg args = throw (tuxedo_exception tpelimit msg args)
  handle_tperrno tpeblock msg args = throw (blocking_exception msg args)
  handle_tperrno tpgotsig msg args = throw (interrupt_exception msg args)
  handle_tperrno tpesvcerr msg args = throw (service_exception msg args)
  handle_tperrno tpetime msg args = throw (timeout_exception msg args)
  handle_tperrno tpesvcfail msg args = do
    urcode ← reads a.tpurcode
    pure (if is_pos urcode then urcode else minus_one)
  handle_tperrno e msg args = do
    catd ← this (λ c. c.catd)
    throw (
        tuxedo_exception e (message catd 33 "Never heard about this tperrno (%d).")
          (code_of e ∷ []))
