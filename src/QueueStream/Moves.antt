-- ===== src/QueueStream/Moves.antt =====
-- In a domain where nothing fails, an export and an import move the messages of a queue.
use cpp_atmi.Prelude.{ℕ, ◌+◌, ◌*◌, ◌<◌, ◌≡◌, false, [], Option, none, some}
use cpp_atmi.Prelude.Lists.{length}
use cpp_atmi.Atmi.Codes.{Constants}
use cpp_atmi.Atmi.Texts.{Text, Texts}
use cpp_atmi.Atmi.Calls.{Atmi, Queueing, Ptr}
use cpp_atmi.Method.{Outcome, ok, err}
use cpp_atmi.Queue.{Queue}
use cpp_atmi.Queue.Settings.{is_message_waiting}
use cpp_atmi.QueueStream.{QueueStream}
use cpp_atmi.QueueStream.Server.{View, IsServer, IsReliable, IsAccepting, IsSettled, with_data}
use cpp_atmi.QueueStream.Export.{Exporter, export}
use cpp_atmi.QueueStream.Export.Successes.{Fits}
use cpp_atmi.QueueStream.Export.Finishes as Exports
use cpp_atmi.QueueStream.Export.Finishes.{export-Delivers}
use cpp_atmi.QueueStream.Import.{import}
use cpp_atmi.QueueStream.Import.Finishes as Imports
use cpp_atmi.QueueStream.Import.Finishes.{import-Delivers}
use cpp_atmi.QueueStream.RoundTrip.{AreLines, AreLines-with_data, get_lines-lines}

module _ {W : Type 0} ⦃a : Atmi W⦄ ⦃t : Texts⦄ ⦃k : Constants⦄ ⦃s : Queueing W⦄
    {qspace queue qspace' queue' : Text} {flags flags' : ℕ} {view : W → View}
    {form : W → Ptr → ℕ → Text} (law : IsServer qspace queue flags view form)
    (works : IsReliable qspace queue flags view form)
    (law' : IsServer qspace' queue' flags' view form)
    (works' : IsReliable qspace' queue' flags' view form)
    (accepts : IsAccepting W qspace' queue' flags') where
  -- The export returned and left nothing, and what it wrote is imported in any later state.
  abbrev pub Moves : QueueStream → Queue → W → Option (Outcome (Unit {0}) × Exporter × W) → Type 0
  Moves qs' q' w none = ⊥
  Moves qs' q' w (some (err e, x, w')) = ⊥
  Moves qs' q' w (some (ok v, x, w')) =
      ((view w').contents ≡ [])
      × IsSettled (view w')
      × ((later : W)
          → IsSettled (view later)
          → Imports.Delivers law' works' accepts (with_data (view w).contents) later
              (import x.out qs' q' later))

  Delivers-Moves :
      (qs' : QueueStream) (q' : Queue) (w : W) (o : Option (Outcome (Unit {0}) × Exporter × W))
      → q'.qspace ≡ some qspace'
      → q'.name ≡ some queue'
      → qs'.flags ≡ flags'
      → AreLines (view w).contents
      → Exports.Delivers law works [] w o
      → Moves qs' q' w o
  Delivers-Moves qs' q' w none b₁ b₂ b₃ each d = d
  Delivers-Moves qs' q' w (some (err e, x, w')) b₁ b₂ b₃ each d = d
  Delivers-Moves qs' q' w (some (ok v, x, w')) b₁ b₂ b₃ each d = (
    d.2,
    d.3,
    λ later settled.
        rw
          (
            ← get_lines-lines (with_data (view w).contents)
                (AreLines-with_data (view w).contents each),
            ← d.0,
          )
          (import-Delivers law' works' accepts x.out qs' q' later b₁ b₂ b₃ settled),
  )

  -- In a domain where the calls do what is documented and nothing fails, from a queue that is
  -- not waited for (no TPQWAIT), outside of a transaction, with messages without a newline that
  -- are at most twice as long as the buffer, and fuel for two rounds more than there are
  -- messages: an export to an empty file returns and leaves an empty queue for good, and an
  -- import of the file into another queue, in any later state without a transaction, returns,
  -- has added the messages with data to that queue in order and for good, and counts them.
  pub export-Moves :
      (fuel : ℕ) (qs qs' : QueueStream) (q q' : Queue) (w : W)
      → q.qspace ≡ some qspace
      → q.name ≡ some queue
      → qs.flags ≡ flags
      → q'.qspace ≡ some qspace'
      → q'.name ≡ some queue'
      → qs'.flags ≡ flags'
      → is_message_waiting q ≡ false
      → (view w).pending ≡ false
      → AreLines (view w).contents
      → Fits (2 * qs.buffer_size) (view w).contents
      → length (view w).contents + 1 < fuel
      → Moves qs' q' w (export fuel qs q [] w)
  export-Moves fuel qs qs' q q' w a₁ a₂ a₃ b₁ b₂ b₃ polls idle each fits enough =
      Delivers-Moves qs' q' w (export fuel qs q [] w) b₁ b₂ b₃ each
        (export-Delivers law works fuel qs q [] w a₁ a₂ a₃ polls idle fits enough)
