-- ===== src/Programs/Import/Runs.antt =====
-- What runs of qimport add to the queue.
use mathlib.Core.List.{append-nil, append_assoc}
use cpp_atmi.Prelude.{
  ℕ, ◌≡◌, refl, Bool, true, Option, none, some, List, [], ◌∷◌, ◌++◌, arith, ◌∙◌, ap, sym,
  Option-cases, inl, inr,
}
use cpp_atmi.Atmi.Codes.{Constants}
use cpp_atmi.Atmi.Texts.{Text, Texts, bytes}
use cpp_atmi.Atmi.Calls.{Atmi, Queueing, Qctl, Ptr}
use cpp_atmi.Method.{Outcome, ok, err}
use cpp_atmi.Tuxedo.{construct}
use cpp_atmi.QueueStream.{new_sized}
use cpp_atmi.QueueStream.Server.{View, IsServer, IsReliable, IsAccepting, IsSettled}
use cpp_atmi.QueueStream.Import.{Importer, import, get_lines}
use cpp_atmi.QueueStream.Import.Finishes.{Delivers, import-Delivers}
use cpp_atmi.Client.{AbstractClient}
use cpp_atmi.Client.Factories.{new_queue_instance}
use cpp_atmi.Options.{Process}
use cpp_atmi.Programs.{Shell, IsQuiet}
use cpp_atmi.Programs.Quiet.{destroy-view, new_queue_instance-view}
use cpp_atmi.Programs.Import.{import_ends, import_queue, run, import_files}

-- The lines of the files that can be read, one file after the other, and whether there is one.
pub readable_lines : (Text → Option Text) → List Text → List Text
readable_lines disk [] = []
readable_lines disk (path ∷ paths) =
    (elim (disk path) [ none ↦ [] | some text ↦ get_lines text ]) ++ readable_lines disk paths

pub any_readable : (Text → Option Text) → Bool → List Text → Bool
any_readable disk status [] = status
any_readable disk status (path ∷ paths) =
    any_readable disk (elim (disk path) [ none ↦ status | some text ↦ true ]) paths

-- The files stay as they are.
pub record IsDisk (W : Type 0) ⦃h : Shell W⦄ (disk : Text → Option Text) : Type 0 where
  pub holds : (path : Text) (w : W) → (h.open_in path w).0 ≡ disk path

module _ {W : Type 0} ⦃a : Atmi W⦄ ⦃t : Texts⦄ ⦃k : Constants⦄ ⦃s : Queueing W⦄ ⦃h : Shell W⦄
    ⦃p : Process W⦄ {qspace queue : Text} {view : W → View} {form : W → Ptr → ℕ → Text}
    (law : IsServer qspace queue k.tpex_string view form)
    (works : IsReliable qspace queue k.tpex_string view form)
    (accepts : IsAccepting W qspace queue k.tpex_string) (quiet : IsQuiet view) where
  -- EXIT_SUCCESS, and the messages `ms` have been added.
  abbrev pub Adds : List Text → W → Bool × W → Type 0
  Adds ms w (status, w') =
      (status ≡ true) × ((view w').contents ≡ (view w).contents ++ ms) × IsSettled (view w')

  import_ends-Adds :
      (ms : List Text) (w : W) (o : Outcome (Unit {0}) × Importer × W)
      → Delivers law works accepts ms w o
      → Adds ms w (import_ends queue o)
  unfolding import_ends
  import_ends-Adds ms w (err e, x, w') d = absurd d
  import_ends-Adds ms w (ok v, x, w') (added, count, settled) =
      let same = destroy-view quiet x.queue.tuxedo x.stream.tuxedo _ w' in
      (refl, ap View.contents same ∙ added, rw same settled)

  pub run-Adds :
      (buffer_size : ℕ) (text : Text) (raw : Qctl) (c : AbstractClient) (w : W)
      → IsSettled (view w)
      → Adds (get_lines text) w (run qspace queue buffer_size text raw c w)
  unfolding run import_queue construct
  run-Adds buffer_size text raw c w before =
      let (r, q, w₁) = new_queue_instance (some qspace) (some queue) none raw c w in
      let (made, space, name, seen) = new_queue_instance-view quiet qspace queue raw c w in
      let (qs, w₂) = new_sized buffer_size w₁ in
      let start = quiet.opened w₁ ∙ seen in
      let (returned, added, settled) =
        import_ends-Adds (get_lines text) w₂ (import text qs q w₂)
          (import-Delivers law works accepts text qs q w₂ space name refl (rw start before)) in
      rw (run, made) (returned, added ∙ ap (λ v. View.contents v ++ get_lines text) start, settled)

  -- In a domain where the calls do what is documented and nothing fails, on a disk whose files
  -- stay as they are, and outside of a transaction: qimport adds the lines of the files that it
  -- can open to the queue, file by file, in order and for good: no transaction is in progress at
  -- the end. Its status is success if there is such a file, and the one that it had if not.
  pub import_files-Adds :
      {disk : Text → Option Text} (stays : IsDisk W disk) (buffer_size : ℕ) (raw : Qctl)
      (c : AbstractClient) (paths : List Text) (status : Bool) (w : W)
      → IsSettled (view w)
      → let (status', w') = import_files qspace queue buffer_size raw c paths status w in
        (status' ≡ any_readable disk status paths)
        × ((view w').contents ≡ (view w).contents ++ readable_lines disk paths)
        × IsSettled (view w')
  unfolding import_files readable_lines any_readable
  import_files-Adds stays buffer_size raw c [] status w before =
      (refl, sym (append-nil (view w).contents), before)
  import_files-Adds {disk} stays buffer_size raw c (path ∷ paths) status w before =
      let (file, w₁) = h.open_in path w in
      let skipped = h.perror (bytes "failed to open import file") w₁ in
      elim (Option-cases (disk path)) [
        | inl e ↦ ground (
          arith,
          e,
          stays.holds path w,
          quiet.read path w,
          quiet.failed (bytes "failed to open import file") w₁,
          before,
          import_files-Adds stays buffer_size raw c paths status skipped,
        )
        | inr (text, e) ↦
            let (status', w₂) = run qspace queue buffer_size text raw c w₁ in
            ground (
              arith,
              e,
              stays.holds path w,
              quiet.read path w,
              run-Adds buffer_size text raw c w₁,
              before,
              import_files-Adds stays buffer_size raw c paths status' w₂,
              append_assoc (view w).contents (get_lines text) (readable_lines disk paths),
            )
      ]
