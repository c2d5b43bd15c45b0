-- ===== src/Client/Contexts.antt =====
-- The context of the objects that a client makes.
use cpp_atmi.Prelude.{◌≡◌, ◌+◌, ◌<◌, refl, ltb, inl, inr, Bool-cases, Option, true, arith}
use cpp_atmi.Prelude.Int.{ℤ, is_pos}
use cpp_atmi.Prelude.Lists.{length}
use cpp_atmi.Atmi.Codes.{Constants}
use cpp_atmi.Atmi.Texts.{Text, Texts}
use cpp_atmi.Atmi.Calls.{Atmi, Qctl}
use cpp_atmi.Exceptions.{tperr}
use cpp_atmi.Method.{Outcome, ok, err}
use cpp_atmi.Tuxedo.{Tuxedo, switch_context, set_context, construct}
use cpp_atmi.Tuxedo.Contexts.{IsContextual, switch_context-Switches}
use cpp_atmi.Queue.Settings as Settings
use cpp_atmi.Queue.Settings.{initialise}
use cpp_atmi.Transaction.{Transaction}
use cpp_atmi.Transaction
use cpp_atmi.Client.{AbstractClient}
use cpp_atmi.Client.Factories.{new_transaction_instance, new_queue_instance}

module _ {W : Type 0} ⦃a : Atmi W⦄ ⦃t : Texts⦄ ⦃k : Constants⦄ where
  -- A `switch_context` of an object with the context `ctxt`.
  abbrev pub Enters : (W → ℤ) → ℤ → Outcome (Unit {0}) × Tuxedo × W → Type 0
  Enters current ctxt (ok v, b, w) = is_pos ctxt ≡ true → current w ≡ ctxt
  Enters current ctxt (err e, b, w) = (is_pos ctxt ≡ true) × (e.error ≡ tperr (a.tperrno w))

  switch_context-Enters :
      {current : W → ℤ} (laws : IsContextual current) (b : Tuxedo) (ctxt : ℤ) (w : W)
      → b.context ≡ ctxt
      → Enters current ctxt (switch_context b w)
  switch_context-Enters laws b ctxt w h = ground (arith, h, switch_context-Switches laws b w)

  pub new_queue_instance-context :
      (qspace queue reply : Option Text) (raw : Qctl) (c : AbstractClient) (w : W)
      → let (r, q, w') = new_queue_instance qspace queue reply raw c w in
        (r ≡ ok tt) × (q.tuxedo.context ≡ c.tuxedo.context) × (q.qspace ≡ qspace) × (q.name ≡ queue)
  unfolding new_queue_instance set_context Settings.new initialise construct
  new_queue_instance-context qspace queue reply raw c w = ground arith

  -- What became of a transaction.
  abbrev pub Makes : (W → ℤ) → Text → ℤ → W → Outcome Transaction → Type 0
  Makes current svc ctxt w (ok x) =
      (x.service ≡ svc) × Enters current ctxt (switch_context x.tuxedo w)
  Makes current svc ctxt w (err e) = k.maxtident + 2 < length svc

  new_transaction_instance-Makes :
      {current : W → ℤ} (laws : IsContextual current) (svc : Text) (c : AbstractClient) (w w' : W)
      → Makes current svc c.tuxedo.context w' (new_transaction_instance svc c w).0
  unfolding new_transaction_instance Transaction.new construct
  new_transaction_instance-Makes laws svc c w w' =
      elim (Bool-cases (ltb (k.maxtident + 2) (length svc))) [
        | inl e ↦ rw (new_transaction_instance, Transaction.new, e) (ground (arith, e))
        | inr e ↦
            rw (new_transaction_instance, Transaction.new, e)
              (
                refl,
                switch_context-Enters laws (record (construct w).0 { context = c.tuxedo.context })
                    c.tuxedo.context w' refl,
              )
      ]

  -- If the calls for contexts do what is documented, the queue and the transaction that a client
  -- makes enter the context of the client, if it is a positive one, whenever they switch
  -- contexts, or throw tperrno. Making the queue always succeeds, with the names that are
  -- passed; making the transaction fails only if the name of its service is too long.
  pub factories-Enter :
      {current : W → ℤ} (laws : IsContextual current) (c : AbstractClient)
      (qspace queue reply : Option Text) (raw : Qctl) (svc : Text) (w w' : W)
      → let (r, q, w₁) = new_queue_instance qspace queue reply raw c w in
        (r ≡ ok tt)
        × (q.qspace ≡ qspace)
        × (q.name ≡ queue)
        × Enters current c.tuxedo.context (switch_context q.tuxedo w')
        × Makes current svc c.tuxedo.context w' (new_transaction_instance svc c w).0
  factories-Enter laws c qspace queue reply raw svc w w' =
      let (r, q, w₁) = new_queue_instance qspace queue reply raw c w in
      let (made, same, space, name) = new_queue_instance-context qspace queue reply raw c w in
      (
        made,
        space,
        name,
        switch_context-Enters laws q.tuxedo c.tuxedo.context w' same,
        new_transaction_instance-Makes laws svc c w w',
      )
