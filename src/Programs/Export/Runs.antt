-- ===== src/Programs/Export/Runs.antt =====
-- What a run of qexport does, from the construction of its queue on.
use mathlib.Core.Option
use cpp_atmi.Prelude.{ℕ, ◌≡◌, refl, Bool, true, false, Option, none, some, List, ◌++◌, ◌∙◌, ap}
use cpp_atmi.Atmi.Codes.{Constants}
use cpp_atmi.Atmi.Texts.{Text, Texts}
use cpp_atmi.Atmi.Calls.{Atmi, Queueing, Qctl, Ptr}
use cpp_atmi.Method.{Outcome, ok, err}
use cpp_atmi.Tuxedo.{construct}
use cpp_atmi.Queue.{Queue}
use cpp_atmi.Queue.Settings.{set_message_wait}
use cpp_atmi.QueueStream.{new_sized}
use cpp_atmi.QueueStream.Server.{View, IsServer, IsSettled, lines, with_data}
use cpp_atmi.QueueStream.Export.{Exporter}
use cpp_atmi.Client.{AbstractClient}
use cpp_atmi.Client.Factories.{new_queue_instance}
use cpp_atmi.Programs.Quiet.{destroy-view, new_queue_instance-view}
use cpp_atmi.Options.{Process}
use cpp_atmi.Programs.{Shell, IsQuiet}
use cpp_atmi.Programs.Export.{export_rounds, export_ends, export_queue, run}
use cpp_atmi.Programs.Export.Rounds.{
  Pause, found, left, actions, ArePauses, Exported, rounds-Exported,
}

module _ {W : Type 0} ⦃a : Atmi W⦄ ⦃t : Texts⦄ ⦃k : Constants⦄ ⦃s : Queueing W⦄ ⦃h : Shell W⦄
    ⦃p : Process W⦄ {qspace queue : Text} {view : W → View} {form : W → Ptr → ℕ → Text}
    (law : IsServer qspace queue k.tpex_string view form) (quiet : IsQuiet view) where
  -- A run that ends with EXIT_SUCCESS has written the messages `ms`, and leaves `rest`.
  abbrev pub RunExports : List Text → List Text → Text → Option (Bool × Text × W) → Type 0
  RunExports ms rest out none = Unit {0}
  RunExports ms rest out (some (false, out', w')) = Unit {0}
  RunExports ms rest out (some (true, out', w')) =
      (out' ≡ out ++ lines (with_data ms)) × ((view w').contents ≡ rest) × IsSettled (view w')

  export_ends-RunExports :
      (ms rest : List Text) (out : Text) (o : Option (Outcome ℕ × Exporter × W))
      → Exported law ms rest 0 out o
      → RunExports ms rest out (Option.map (export_ends queue) o)
  unfolding export_ends
  export_ends-RunExports ms rest out none e = tt
  export_ends-RunExports ms rest out (some (err e', x, w)) e = tt
  export_ends-RunExports ms rest out (some (ok c, x, w)) (written, count, empty, settled) =
      let same = destroy-view quiet x.receiver.queue.tuxedo x.stream.tuxedo _ w in
      (written, ap View.contents same ∙ empty, rw same settled)

  -- What the construction of the stream leaves alone.
  export_queue-RunExports :
      (fuel : ℕ) (daemon : Bool) (is : List (Pause W)) (buffer_size : ℕ) (out : Text) (q : Queue)
      (w : W)
      → ArePauses view is
      → q.qspace ≡ some qspace
      → q.name ≡ some queue
      → RunExports
          (found daemon (view w).contents is)
          (left daemon is)
          out
          (export_queue fuel (actions is) queue buffer_size out daemon q w)
  unfolding export_queue construct
  export_queue-RunExports fuel daemon is buffer_size out q w ps a₁ a₂ =
      let (r, q', w₁) = set_message_wait false q w in
      let (qs, w₂) = new_sized buffer_size w₁ in
      export_ends-RunExports (found daemon (view w).contents is) (left daemon is) out
        (export_rounds fuel daemon (actions is) qs q' 0 out w₂)
        (rw (← quiet.opened w) (rounds-Exported law fuel daemon is qs q' 0 out w₂ ps a₁ a₂ refl))

  pub run-export_queue :
      (fuel : ℕ) (pauses : List (W → W)) (buffer_size : ℕ) (out : Text) (daemon : Bool) (raw : Qctl)
      (c : AbstractClient) (w : W)
      → let (r, q, w₁) = new_queue_instance (some qspace) (some queue) none raw c w in
        (run fuel pauses qspace queue buffer_size out daemon raw c w
          ≡ export_queue fuel pauses queue buffer_size out daemon q w₁)
        × (q.qspace ≡ some qspace)
        × (q.name ≡ some queue)
        × (view w₁ ≡ view w)
  unfolding run
  run-export_queue fuel pauses buffer_size out daemon raw c w =
      let (made, space, name, seen) = new_queue_instance-view quiet qspace queue raw c w in
      (rw (run, made) refl, space, name, seen)

  pub run-Exports :
      (fuel : ℕ) (is : List (Pause W)) (buffer_size : ℕ) (out : Text) (daemon : Bool) (raw : Qctl)
      (c : AbstractClient) (w : W)
      → ArePauses view is
      → RunExports
          (found daemon (view w).contents is)
          (left daemon is)
          out
          (run fuel (actions is) qspace queue buffer_size out daemon raw c w)
  run-Exports fuel is buffer_size out daemon raw c w ps =
      let (r, q, w₁) = new_queue_instance (some qspace) (some queue) none raw c w in
      let (same, space, name, seen) =
        run-export_queue fuel (actions is) buffer_size out daemon raw c w in
      rw (same, ← seen) (export_queue-RunExports fuel daemon is buffer_size out q w₁ ps space name)
