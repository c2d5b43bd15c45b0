-- ===== src/Buffer/Types.antt =====
-- A buffer refers to typed buffers of the right type only.
use cpp_atmi.Prelude.{
  ◌≡◌, refl, ◌≢◌, ◌↔◌, inl, inr, Bool, true, false, [], ◌∷◌, arith, Bool-cases, ap, if◌then◌else◌,
}
use cpp_atmi.Prelude.Int.{minus_one, eqb, eqb_iff}
use cpp_atmi.Atmi.Texts.{Text, Texts, c_str, bytes}
use cpp_atmi.Atmi.Calls.{Atmi, Ptr}
use cpp_atmi.Atmi.Fml.{Fml}
use cpp_atmi.Exceptions.{atmi, no_code, atmi_exception}
use cpp_atmi.Method.{Outcome, ok, err, assign, throw}
use cpp_atmi.Buffer.{Buffer, text_eqb, compared, is_fml32_buffer, set_buffer}

-- `strncmp` of two texts without a NUL is 0 exactly if they are equal.
pub text_eqb_iff : (s s' : Text) → (text_eqb s s' ≡ true) ↔ (s ≡ s')
unfolding text_eqb
text_eqb_iff [] [] = ground arith
text_eqb_iff [] (d ∷ ds) = ground arith
text_eqb_iff (c ∷ cs) [] = ground arith
text_eqb_iff (c ∷ cs) (d ∷ ds) = ground (arith, text_eqb_iff cs ds)

module _ {W : Type 0} ⦃a : Atmi W⦄ ⦃t : Texts⦄ ⦃f : Fml W⦄ where
  -- The first eight characters of the type of `p` are those of FMLTYPE32.
  abbrev pub IsFml : Ptr → W → Type 0
  IsFml p w =
      ((a.tptypes p w).0 ≢ minus_one) × (compared f.fmltype32 ≡ compared (c_str (a.tptypes p w).1))

  abbrev pub Refers : Ptr → Buffer → W → Outcome (Unit {0}) × Buffer × W → Type 0
  Refers p b w (ok v, b', w') = IsFml p w × (b' ≡ record b { buffer = p })
  Refers p b w (err e, b', w') = (¬ IsFml p w) × (b' ≡ b) × (e.class ≡ atmi) × (e.error ≡ no_code)

  abbrev Says : Ptr → Buffer → W → Outcome Bool × Buffer × W → Type 0
  Says p b w (ok v, b', w') = ((v ≡ true) ↔ IsFml p w) × (b' ≡ b)
  Says p b w (err e, b', w') = (¬ IsFml p w) × (b' ≡ b) × (e.class ≡ atmi) × (e.error ≡ no_code)

  is_fml32_buffer-Says : (p : Ptr) (b : Buffer) (w : W) → Says p b w (is_fml32_buffer p b w)
  unfolding is_fml32_buffer atmi_exception
  is_fml32_buffer-Says p b w =
      let (rc, type, w') = a.tptypes p w in
      let same = text_eqb_iff (compared f.fmltype32) (compared (c_str type)) in
      elim (Bool-cases (eqb rc minus_one)) [
        | inl h ↦ rw h ((λ q. q.0 ((eqb_iff rc minus_one).0 h)), refl, refl, refl)
        | inr h ↦ rw h (
          (
            λ e. (λ o. absurd (ground (arith, h, (eqb_iff rc minus_one).1 o)), same.0 e),
            λ q. same.1 q.1,
          ),
          refl,
        )
      ]

  -- `set_buffer` returns exactly if the new reference is of the type FML32, and refers to it
  -- then; otherwise it throws an atmi_exception and keeps the old one. Nothing else changes.
  pub set_buffer-Refers : (p : Ptr) (b : Buffer) (w : W) → Refers p b w (set_buffer p b w)
  unfolding set_buffer atmi_exception
  set_buffer-Refers p b w = go (is_fml32_buffer p b w) (is_fml32_buffer-Says p b w)
    where
      go :
          (out : Outcome Bool × Buffer × W)
          → Says p b w out
          → Refers p b w (
              let (r, b', w') = out in
              elim r [
                | ok fits ↦
                    (if fits
                        then assign (λ b. record b { buffer = p })
                        else throw (
                            atmi_exception
                              (bytes "This buffer reference is not of type FMLTYPE32.")
                              []))
                      b' w'
                | err e ↦ (err e, b', w')
              ])
      go (ok true, b', w') s = (s.0.0 refl, ap (λ (b : Buffer). record b { buffer = p }) s.1)
      go (ok false, b', w') s = ((λ q. absurd (ground (arith, s.0.1 q))), s.1, refl, refl)
      go (err e, b', w') s = s
