-- ===== src/QueueStream/Switches.antt =====
-- What a switch of context does to the queue and to the message in a buffer.
use cpp_atmi.Prelude.{ℕ, ◌≡◌, false, arith}
use cpp_atmi.Atmi.Codes.{Constants}
use cpp_atmi.Atmi.Texts.{Text, Texts}
use cpp_atmi.Atmi.Calls.{Atmi, Queueing, Ptr}
use cpp_atmi.Exceptions.{is_timeout, tuxedo_exception}
use cpp_atmi.Method.{Post}
use cpp_atmi.Tuxedo.{Tuxedo, switch_context}
use cpp_atmi.QueueStream.Server.{View, IsServer}

module _ {W : Type 0} ⦃a : Atmi W⦄ ⦃t : Texts⦄ ⦃k : Constants⦄ ⦃s : Queueing W⦄
    {qspace queue : Text} {flags : ℕ} {view : W → View} {form : W → Ptr → ℕ → Text}
    (law : IsServer qspace queue flags view form) where
  -- Nothing, and a throw is no timeout.
  pub switch_context-Post :
      (c : Tuxedo) (w : W) (p : Ptr) (n : ℕ)
      → Post
          (λ v c' w'. (c' ≡ c) × (view w' ≡ view w) × (form w' p n ≡ form w p n))
          (λ e c' w'. (view w' ≡ view w) × (is_timeout e.class ≡ false))
          (switch_context c w)
  unfolding switch_context tuxedo_exception is_timeout
  switch_context-Post c w p n =
      let (rc, ctxt, w') = a.tpgetctxt w in
      ground (
        arith,
        law.got_context w,
        law.put_context c.context w',
        law.context_form w c.context p n,
        law.context_form w' c.context p n,
      )
