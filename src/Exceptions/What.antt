-- ===== src/Exceptions/What.antt =====
-- What the exception objects say: `what()`, `error()` and the class that a handler sees.
use cpp_atmi.Prelude.{◌<◌, ◌≡◌, refl, ◌≢◌, List, ◌∷◌, ◌++◌, arith}
use cpp_atmi.Prelude.Int.{ℤ}
use cpp_atmi.Prelude.Lists.{length, length-append, length-take}
use cpp_atmi.Atmi.Codes.{
  Errno, Diagno, FmlError, tpesvcerr, tpetime, tpeblock, tpgotsig, tpediagnostic, qmeaborted,
}
use cpp_atmi.Atmi.Texts.{Text, Texts, Arg}
use cpp_atmi.Exceptions.{
  Exception, what, with_description, description, diagnostic_message, atmi_exception,
  unix_exception, buffer_exception, field_exception, tuxedo_exception, service_exception,
  timeout_exception, blocking_exception, interrupt_exception, diagnostic_exception,
  aborted_exception,
}

-- The object describes the failure `d` behind its message, which fits the 1024 byte buffer.
abbrev pub Says : Exception → Text → Type 0
Says e d = (what e ≡ e.message ++ b' ' ∷ d) × (length e.message < 1024)

length-with_description : (m d : Text) → 0 < length (with_description m d)
unfolding with_description
length-with_description m d = omega (arith, length-append m (b' ' ∷ d))

what-with_description :
    (e : Exception) (d : Text)
    → e.what_text ≡ with_description e.message d
    → what e ≡ e.message ++ b' ' ∷ d
unfolding what with_description
what-with_description e d h = ground (arith, h, length-append e.message (b' ' ∷ d))

module _ ⦃t : Texts⦄ (msg : Text) (args : List Arg) where
  message_fits : length (atmi_exception msg args).message < 1024
  unfolding atmi_exception
  message_fits = omega (arith, length-take {0} 1023 (t.format msg args))

  says :
      (e : Exception) (d : Text)
      → e.message ≡ (atmi_exception msg args).message
      → e.what_text ≡ with_description e.message d
      → Says e d
  says e d m h = (what-with_description e d h, omega (arith, message_fits, ap-length e m))
    where
      ap-length :
          (e : Exception)
          → e.message ≡ (atmi_exception msg args).message
          → length e.message ≡ length (atmi_exception msg args).message
      ap-length e p = rw p

  -- `what()` of a unix, buffer, field or tuxedo exception is its message and the description of
  -- its error number, and the message fits its buffer.
  pub numbered_Says :
      (n : ℤ) (f : FmlError) (e : Errno)
      → Says (unix_exception n msg args) (t.strerror n)
        × Says (buffer_exception f msg args) (t.fstrerror32 f)
        × Says (field_exception f msg args) (t.fstrerror32 f)
        × Says (tuxedo_exception e msg args) (t.tpstrerror e)
  unfolding unix_exception buffer_exception field_exception tuxedo_exception
  numbered_Says n f e =
      (says _ _ refl refl, says _ _ refl refl, says _ _ refl refl, says _ _ refl refl)

  -- `what()` of a service, timeout, blocking or interrupt exception is its message and the
  -- description of the tperrno that the class stands for, and the message fits its buffer.
  pub fixed_Says :
      Says (service_exception msg args) (t.tpstrerror tpesvcerr)
      × Says (timeout_exception msg args) (t.tpstrerror tpetime)
      × Says (blocking_exception msg args) (t.tpstrerror tpeblock)
      × Says (interrupt_exception msg args) (t.tpstrerror tpgotsig)
  unfolding service_exception timeout_exception blocking_exception interrupt_exception
  fixed_Says = (says _ _ refl refl, says _ _ refl refl, says _ _ refl refl, says _ _ refl refl)

  -- `what()` of a diagnostic exception is its message and the description of the diagnostic if
  -- tperrno is TPEDIAGNOSTIC, and of tperrno if not; an aborted exception describes QMEABORTED.
  -- The message fits its buffer.
  pub diagnostic_Says :
      (d : Diagno) (e : Errno)
      → e ≢ tpediagnostic
      → Says (diagnostic_exception tpediagnostic d msg args) (diagnostic_message d)
        × Says (diagnostic_exception e d msg args) (t.tpstrerror e)
        × Says (aborted_exception msg args) (diagnostic_message qmeaborted)
  unfolding diagnostic_exception aborted_exception
  diagnostic_Says d e h =
      (says _ _ refl refl, says _ _ refl (rw (described e h)), says _ _ refl refl)
    where
      described : (e : Errno) → e ≢ tpediagnostic → description e d ≡ t.tpstrerror e
      described tpediagnostic h = absurd (h refl)
      described _ h = refl
