-- ===== src/CallInfo/Limits.antt =====
-- Which identifiers `set_ecid` takes.
use cpp_atmi.Prelude.{◌≤◌, ◌<◌, ◌≡◌, ◌⊎◌, true, false, arith}
use cpp_atmi.Prelude.Int.{ℤ, is_neg}
use cpp_atmi.Prelude.Lists.{length}
use cpp_atmi.Atmi.Codes.{Constants}
use cpp_atmi.Atmi.Texts.{Text, Texts}
use cpp_atmi.Atmi.Calls.{Atmi}
use cpp_atmi.Atmi.Fml.{Fml}
use cpp_atmi.Exceptions.{atmi, buffer, ferror, atmi_exception, buffer_exception}
use cpp_atmi.Method.{Outcome, ok, err}
use cpp_atmi.CallInfo.{CallInfo, set_ecid}
use cpp_atmi.Field.{set, positive}

module _ {W : Type 0} ⦃a : Atmi W⦄ ⦃t : Texts⦄ ⦃f : Fml W⦄ ⦃k : Constants⦄ where
  -- What `set_ecid` does where Fchg32 returned `rc` and left the world `w'`.
  abbrev pub Takes : Text → CallInfo → W → ℤ × W → Outcome (Unit {0}) × CallInfo × W → Type 0
  Takes value c w (rc, w₁) (ok v, c', w') =
      (length value ≤ k.maxecidlen) × (is_neg rc ≡ false) × (c'.ecid.value ≡ value) × (w' ≡ w₁)
  Takes value c w (rc, w₁) (err e, c', w') =
      ((k.maxecidlen < length value) × (e.class ≡ atmi) × (c' ≡ c) × (w' ≡ w))
      ⊎ ((length value ≤ k.maxecidlen)
          × (is_neg rc ≡ true)
          × (e.class ≡ buffer)
          × (e.error ≡ ferror (f.ferror32 w₁))
          × (w' ≡ w₁))

  -- `set_ecid` throws an atmi_exception for an identifier that is longer than MAXECIDLEN, and
  -- changes nothing. Any other is handed to Fchg32: it is the value of the field if that
  -- succeeds, and a buffer_exception with Ferror32 is thrown if not.
  pub set_ecid-Takes :
      (value : Text) (c : CallInfo) (w : W)
      → Takes value c w
          (f.fchg32 c.buffer.buffer c.ecid.id c.ecid.occurence value (length value) w)
          (set_ecid value c w)
  unfolding set_ecid set positive atmi_exception buffer_exception
  set_ecid-Takes value c w = ground arith
