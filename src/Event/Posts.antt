-- ===== src/Event/Posts.antt =====
-- What posting an event returns, and with which flags it is posted.
use cpp_atmi.Prelude.{ℕ, ◌≡◌, ◌≢◌, some, [], ◌∷◌, arith}
use cpp_atmi.Prelude.Int.{ℤ, minus_one, eqb_iff}
use cpp_atmi.Atmi.Codes.{Constants, tpesvcfail}
use cpp_atmi.Atmi.Texts.{Text, Texts, str, bytes}
use cpp_atmi.Atmi.Calls.{Atmi, Services, Ptr}
use cpp_atmi.Method.{Outcome, ok, err}
use cpp_atmi.Tuxedo.Raises.{IsFor, handle_tperrno-Handles}
use cpp_atmi.Event.{new, post}

module _ {W : Type 0} ⦃a : Atmi W⦄ ⦃t : Texts⦄ ⦃k : Constants⦄ ⦃s : Services W⦄ where
  -- `rc` is the result of the call, and `w` the world after it.
  abbrev pub Posted : ℤ → W → Outcome ℤ → Type 0
  Posted rc w (ok v) =
      (rc ≢ minus_one → v ≡ a.tpurcode w)
      × (rc ≡ minus_one → (v ≡ minus_one) × (a.tperrno w ≡ tpesvcfail))
  Posted rc w (err x) = (rc ≡ minus_one) × (a.tperrno w ≢ tpesvcfail) × IsFor (a.tperrno w) x

  pub post-Posted :
      (eventname : Text) (buf : Ptr) (len : ℕ) (w : W)
      → let (e, w₁) = new eventname w in
        let (rc, w₂) = s.tppost (some eventname) buf len k.tpnoflags w₁ in
        let (r, e', w') = post buf len e w₁ in Posted rc w₂ r × (w' ≡ w₂)
  unfolding new post
  post-Posted eventname buf len w =
      let (e, w₁) = new eventname w in
      let (rc, w₂) = s.tppost (some eventname) buf len k.tpnoflags w₁ in
      ground (
        arith,
        eqb_iff rc minus_one,
        handle_tperrno-Handles (a.tperrno w₂) (bytes "Post event %s failed.") (str eventname ∷ [])
            e.tuxedo w₂,
      )
