-- ===== src/Client/Factories.antt =====
-- src/abstract_client.cpp: the other constructors, and the objects that a client makes.
use cpp_atmi.Prelude.{Option, none}
use cpp_atmi.Atmi.Codes.{Constants}
use cpp_atmi.Atmi.Texts.{Text, Texts}
use cpp_atmi.Atmi.Calls.{Atmi, Qctl, Tpinit, Joining}
use cpp_atmi.Method.{Outcome, ok, err}
use cpp_atmi.Tuxedo.{set_context}
use cpp_atmi.Transaction.{Transaction}
use cpp_atmi.Transaction
use cpp_atmi.Queue.{Queue}
use cpp_atmi.Queue
use cpp_atmi.Queue.Settings
use cpp_atmi.Client.{AbstractClient, new}

-- The other constructors, by their parameters.
module _ {W : Type 0} ⦃j : Joining W⦄ ⦃a : Atmi W⦄ ⦃t : Texts⦄ ⦃k : Constants⦄ where
  unfoldable pub new_unnamed : Tpinit → W → Option (Outcome AbstractClient × W)
  unfolding new
  new_unnamed = new none none none none none none

  unfoldable pub new_named : Option Text → Tpinit → W → Option (Outcome AbstractClient × W)
  unfolding new
  new_named cltname = new cltname none none none none none

  unfoldable pub new_configured :
      Option Text → Option Text → Tpinit → W → Option (Outcome AbstractClient × W)
  unfolding new
  new_configured cltname tuxconfig = new cltname none none none none tuxconfig

  unfoldable pub new_user :
      Option Text
      → Option Text
      → Option Text
      → Option Text
      → Option Text
      → Tpinit
      → W
      → Option (Outcome AbstractClient × W)
  unfolding new
  new_user cltname usr sys_passwd app_passwd group =
      new cltname usr sys_passwd app_passwd group none

module _ {W : Type 0} ⦃a : Atmi W⦄ ⦃t : Texts⦄ ⦃k : Constants⦄ where
  -- What is made of an object whose constructor returned.
  unfoldable pub new_transaction_instance : Text → AbstractClient → W → Outcome Transaction × W
  unfolding Transaction.new set_context
  new_transaction_instance svc c w =
      let (r, w') = Transaction.new svc w in
      elim r [
        | err e ↦ (err e, w')
        | ok x ↦ (ok (record x { tuxedo = record x.tuxedo { context = c.tuxedo.context } }), w')
      ]

  -- `raw` is what the memory of the TPQCTL holds.
  unfoldable pub new_queue_instance :
      Option Text
      → Option Text
      → Option Text
      → Qctl
      → AbstractClient
      → W
      → Outcome (Unit {0}) × Queue × W
  unfolding Queue.Settings.new set_context
  new_queue_instance qspace queue reply raw c w =
      let (r, q, w') = Queue.Settings.new qspace queue reply raw w in
      elim r [ err e ↦ (err e, q, w') | ok v ↦ Queue.super (set_context c.tuxedo.context) q w' ]
