-- ===== src/Programs/Quiet.antt =====
-- What the programs do around an export or an import leaves the queue alone.
use cpp_atmi.Prelude.{◌≡◌, ◌∙◌, none, some, arith}
use cpp_atmi.Atmi.Codes.{Constants}
use cpp_atmi.Atmi.Texts.{Text, Texts}
use cpp_atmi.Atmi.Calls.{Atmi, Qctl}
use cpp_atmi.Method.{ok}
use cpp_atmi.Tuxedo.{Tuxedo, construct, destroy, set_context}
use cpp_atmi.Queue.Settings as Settings
use cpp_atmi.Queue.Modes.{IsFlagTable, initialise-IsFlags}
use cpp_atmi.Tuxedo.Masks.{IsFlags}
use cpp_atmi.Queue.Settings.{initialise}
use cpp_atmi.QueueStream.Server.{View}
use cpp_atmi.Client.{AbstractClient}
use cpp_atmi.Client.Factories.{new_queue_instance}
use cpp_atmi.Options.{Process}
use cpp_atmi.Programs.{Shell, IsQuiet}

module _ {W : Type 0} ⦃a : Atmi W⦄ ⦃t : Texts⦄ ⦃k : Constants⦄ ⦃h : Shell W⦄ ⦃p : Process W⦄
    {view : W → View} (quiet : IsQuiet view) where
  pub destroy-view :
      (c c' : Tuxedo) (msg : Text) (w : W) → view (destroy c (destroy c' (p.cerr msg w))) ≡ view w
  unfolding destroy
  destroy-view c c' msg w =
      quiet.closed c.catd (destroy c' (p.cerr msg w))
      ∙ quiet.closed c'.catd (p.cerr msg w)
      ∙ quiet.said msg w

  -- The queue of a client is there, and is the one that was asked for.
  pub new_queue_instance-view :
      (qspace queue : Text) (raw : Qctl) (c : AbstractClient) (w : W)
      → let (r, q, w₁) = new_queue_instance (some qspace) (some queue) none raw c w in
        (r ≡ ok tt) × (q.qspace ≡ some qspace) × (q.name ≡ some queue) × (view w₁ ≡ view w)
  unfolding new_queue_instance Settings.new initialise construct set_context
  new_queue_instance-view qspace queue raw c w = ground (arith, quiet.opened w)

  -- Its flags are flags.
  pub new_queue_instance-bits :
      (table : IsFlagTable) (qspace queue : Text) (raw : Qctl) (c : AbstractClient) (w : W)
      → IsFlags (new_queue_instance (some qspace) (some queue) none raw c w).1.qctl.flags
  unfolding new_queue_instance Settings.new initialise construct set_context
  new_queue_instance-bits table qspace queue raw c w =
      let (base, w') = construct w in
      ground (
        arith,
        initialise-IsFlags table (some qspace) (some queue) none
            (record { tuxedo = base; qspace = none; name = none; diagno = none; qctl = raw }) w',
      )
