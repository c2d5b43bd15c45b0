-- ===== src/Tuxedo/Contexts.antt =====
-- Where `switch_context` leaves the thread.
use cpp_atmi.Prelude.{◌≡◌, true, false, arith}
use cpp_atmi.Prelude.Int.{ℤ, is_neg, is_pos, eqb_iff}
use cpp_atmi.Atmi.Texts.{Texts}
use cpp_atmi.Atmi.Calls.{Atmi}
use cpp_atmi.Exceptions.{tperr, tuxedo_exception}
use cpp_atmi.Method.{Outcome, ok, err}
use cpp_atmi.Tuxedo.{Tuxedo, switch_context}

-- The documented effect of the two calls on the thread's context: tpgetctxt stores it and leaves
-- it alone, and tpsetctxt sets it if it does not fail.
pub record IsContextual {W : Type 0} ⦃a : Atmi W⦄ (current : W → ℤ) : Type 0 where
  pub got :
      (w : W)
      → is_neg (a.tpgetctxt w).0 ≡ false
      → ((a.tpgetctxt w).1 ≡ current w) × (current (a.tpgetctxt w).2 ≡ current w)
  pub put :
      (ctxt : ℤ) (w : W)
      → is_neg (a.tpsetctxt ctxt w).0 ≡ false
      → current (a.tpsetctxt ctxt w).1 ≡ ctxt

module _ {W : Type 0} ⦃a : Atmi W⦄ ⦃t : Texts⦄ where
  -- An instance with a context of its own returns in that context or throws; one with none
  -- calls nothing.
  abbrev pub Switches : (W → ℤ) → Tuxedo → W → Outcome (Unit {0}) × Tuxedo × W → Type 0
  Switches current c w (ok v, c', w') =
      (c' ≡ c)
      × (is_pos c.context ≡ true → current w' ≡ c.context)
      × (is_pos c.context ≡ false → w' ≡ w)
  Switches current c w (err e, c', w') =
      (c' ≡ c) × (is_pos c.context ≡ true) × (e.error ≡ tperr (a.tperrno w'))

  pub switch_context-Switches :
      {current : W → ℤ} (laws : IsContextual current) (c : Tuxedo) (w : W)
      → Switches current c w (switch_context c w)
  unfolding switch_context tuxedo_exception
  switch_context-Switches laws c w =
      let (rc, ctxt, w') = a.tpgetctxt w in
      ground (arith, laws.got w, laws.put c.context w', eqb_iff c.context ctxt)
