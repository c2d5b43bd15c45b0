-- ===== src/Programs/Export/Finishes.antt =====
-- In a domain where nothing fails, a run of qexport that is interrupted, or makes one round, ends.
use mathlib.Core.Option
use cpp_atmi.Prelude.{
  ℕ, ◌+◌, ◌*◌, ◌<◌, ◌≡◌, refl, inl, inr, Bool, true, false, Option, none, some, List, [], ◌∷◌, ◌++◌,
  ◌&&◌, Bool-cases, Option-cases, ◌∙◌, ap,
}
use cpp_atmi.Prelude.Lists.{length}
use cpp_atmi.Atmi.Codes.{Constants}
use cpp_atmi.Atmi.Texts.{Text, Texts}
use cpp_atmi.Atmi.Calls.{Atmi, Queueing, Qctl, Ptr}
use cpp_atmi.Method.{Outcome, ok, err}
use cpp_atmi.Tuxedo.{construct}
use cpp_atmi.Queue.{Queue}
use cpp_atmi.Queue.Settings.{set_message_wait, is_message_waiting}
use cpp_atmi.Queue.Modes.{IsFlagTable, is_message_waiting-set_message_wait}
use cpp_atmi.Tuxedo.Masks.{IsFlags}
use cpp_atmi.Programs.Quiet.{new_queue_instance-bits}
use cpp_atmi.QueueStream.{QueueStream, new_sized}
use cpp_atmi.QueueStream.Server.{View, IsServer, IsReliable, IsSettled, lines, with_data}
use cpp_atmi.QueueStream.Export.{Exporter, export, start}
use cpp_atmi.QueueStream.Export.Successes.{Fits}
use cpp_atmi.QueueStream.Export.Drains.{export-Drains}
use cpp_atmi.QueueStream.Export.Finishes.{export-Delivers}
use cpp_atmi.Client.{AbstractClient}
use cpp_atmi.Client.Factories.{new_queue_instance}
use cpp_atmi.Options.{Process}
use cpp_atmi.Programs.{Shell, IsQuiet}
use cpp_atmi.Programs.Export.{export_rounds, export_ends, export_queue, run}
use cpp_atmi.Programs.Export.Rounds.{
  Pause, goes_on, found, left, actions, Ends, ArrivalsFit, IsPause, ArePauses,
}
use cpp_atmi.Programs.Export.Runs.{RunExports, run-Exports, run-export_queue}

module _ {W : Type 0} ⦃a : Atmi W⦄ ⦃t : Texts⦄ ⦃k : Constants⦄ ⦃s : Queueing W⦄ ⦃h : Shell W⦄
    {qspace queue : Text} {flags : ℕ} {view : W → View} {form : W → Ptr → ℕ → Text}
    (law : IsServer qspace queue flags view form)
    (works : IsReliable qspace queue flags view form) where
  -- The loop ends, and nothing is thrown.
  abbrev Returns : Option (Outcome ℕ × Exporter × W) → Type 0
  Returns none = ⊥
  Returns (some (err e, x, w)) = ⊥
  Returns (some (ok c, x, w)) = Unit {0}

  after_round-Returns :
      (fuel : ℕ) (daemon : Bool) (i : Pause W) (is : List (Pause W)) (c : ℕ) (x : Exporter) (w₁ : W)
      → IsPause view i
      → (goes_on daemon i ≡ true
          → Returns (
              export_rounds fuel daemon (actions is) x.stream x.receiver.queue c x.out (i.acts w₁)))
      → Returns (elim (h.running (i.acts w₁) && daemon) [
        | true ↦
            export_rounds fuel daemon (actions is) x.stream x.receiver.queue c x.out (i.acts w₁)
        | false ↦ some (ok c, x, i.acts w₁)
      ])
  after_round-Returns fuel daemon i is c x w₁ p more = elim (Bool-cases (goes_on daemon i)) [
    | inl on ↦ rw (p.halts w₁, on) (more on)
    | inr off ↦ rw (p.halts w₁, off) tt
  ]

  pub rounds-Returns :
      (fuel : ℕ) (daemon : Bool) (is : List (Pause W)) (qs : QueueStream) (q : Queue) (counter : ℕ)
      (out : Text) (w : W)
      → ArePauses view is
      → Ends daemon is
      → q.qspace ≡ some qspace
      → q.name ≡ some queue
      → qs.flags ≡ flags
      → is_message_waiting q ≡ false
      → (view w).pending ≡ false
      → Fits (2 * qs.buffer_size) (view w).contents
      → length (view w).contents + 1 < fuel
      → ArrivalsFit (2 * qs.buffer_size) fuel is
      → Returns (export_rounds fuel daemon (actions is) qs q counter out w)
  unfolding export_rounds start
  rounds-Returns fuel daemon [] qs q counter out w ps ends a₁ a₂ a₃ polls idle fits room later =
      absurd ends
  rounds-Returns fuel daemon (i ∷ is) qs q counter out w (p, ps) ends a₁ a₂ a₃ polls idle fits room
        (fits', room', later) =
      let one = export-Delivers law works fuel qs q out w a₁ a₂ a₃ polls idle fits room in
      elim (Option-cases (export fuel qs q out w)) [
        | inl e ↦ absurd (rw e at one)
        | inr ((err e', x, w₁), e) ↦ absurd (rw e at one)
        | inr ((ok v, x, w₁), e) ↦
            let (names, written, count, empty, settled) =
              export-Drains law fuel qs q out w x w₁ a₁ a₂ a₃ e in
            let next : (view (i.acts w₁)).contents ≡ i.arrivals =
              p.adds w₁ ∙ ap (λ c. c ++ i.arrivals) empty in
            rw (e, export_rounds)
              (after_round-Returns fuel daemon i is (counter + x.stream.count) x w₁ p (λ on.
                rounds-Returns fuel daemon is x.stream x.receiver.queue (counter + x.stream.count)
                  x.out (i.acts w₁) ps (ends on) (names.qspace ∙ a₁) (names.queue ∙ a₂)
                  (names.flags ∙ a₃) (names.waits ∙ polls) (p.stays w₁ settled).0
                  (rw (next, names.buffer_size) fits') (rw next room')
                  (rw names.buffer_size later)))
      ]

module _ {W : Type 0} ⦃a : Atmi W⦄ ⦃t : Texts⦄ ⦃k : Constants⦄ ⦃s : Queueing W⦄ ⦃h : Shell W⦄
    ⦃p : Process W⦄ {qspace queue : Text} {view : W → View} {form : W → Ptr → ℕ → Text}
    (law : IsServer qspace queue k.tpex_string view form)
    (works : IsReliable qspace queue k.tpex_string view form) (quiet : IsQuiet view)
    (table : IsFlagTable) where
  -- The run ends with EXIT_SUCCESS, has written the messages `ms`, and leaves `rest`.
  abbrev pub RunDelivers : List Text → List Text → Text → Option (Bool × Text × W) → Type 0
  RunDelivers ms rest out none = ⊥
  RunDelivers ms rest out (some (false, out', w')) = ⊥
  RunDelivers ms rest out (some (true, out', w')) =
      (out' ≡ out ++ lines (with_data ms)) × ((view w').contents ≡ rest) × IsSettled (view w')

  abbrev Succeeds : Option (Bool × Text × W) → Type 0
  Succeeds none = ⊥
  Succeeds (some (false, out', w')) = ⊥
  Succeeds (some (true, out', w')) = Unit {0}

  export_ends-Succeeds :
      (o : Option (Outcome ℕ × Exporter × W))
      → Returns law works o
      → Succeeds (Option.map (export_ends queue) o)
  unfolding export_ends
  export_ends-Succeeds none r = r
  export_ends-Succeeds (some (err e, x, w)) r = r
  export_ends-Succeeds (some (ok c, x, w)) r = tt

  both :
      (ms rest : List Text) (out : Text) (o : Option (Bool × Text × W))
      → Succeeds o
      → RunExports law quiet ms rest out o
      → RunDelivers ms rest out o
  both ms rest out none r e = r
  both ms rest out (some (false, out', w')) r e = r
  both ms rest out (some (true, out', w')) r e = e

  export_queue-Succeeds :
      (fuel : ℕ) (daemon : Bool) (is : List (Pause W)) (buffer_size : ℕ) (out : Text) (q : Queue)
      (w : W)
      → ArePauses view is
      → Ends daemon is
      → q.qspace ≡ some qspace
      → q.name ≡ some queue
      → IsFlags q.qctl.flags
      → (view w).pending ≡ false
      → Fits (2 * buffer_size) (view w).contents
      → length (view w).contents + 1 < fuel
      → ArrivalsFit (2 * buffer_size) fuel is
      → Succeeds (export_queue fuel (actions is) queue buffer_size out daemon q w)
  unfolding export_queue construct
  export_queue-Succeeds fuel daemon is buffer_size out q w ps ends a₁ a₂ bits idle fits room later =
      let (r, q', w₁) = set_message_wait false q w in
      let polls = (is_message_waiting-set_message_wait table q w bits false).1 in
      let (qs, w₂) = new_sized buffer_size w₁ in
      export_ends-Succeeds (export_rounds fuel daemon (actions is) qs q' 0 out w₂) (
        rounds-Returns law works fuel daemon is qs q' 0 out w₂ ps ends a₁ a₂ refl polls
          (rw (quiet.opened w) idle) (rw (quiet.opened w) fits) (rw (quiet.opened w) room) later)

  -- In a domain where the calls do what is documented and nothing fails, under the documented
  -- bits of the flags, outside of a transaction, with messages of at most twice the buffer size,
  -- now and between the rounds, and fuel for two rounds of each export more than there are
  -- messages: a run of qexport that is interrupted at some time, or is no daemon, ends with
  -- EXIT_SUCCESS, has put every message with data that its rounds found into its output, in
  -- order, behind what was there, and leaves what arrived after the last round, for good: no
  -- transaction is in progress.
  pub run-Delivers :
      (fuel : ℕ) (is : List (Pause W)) (buffer_size : ℕ) (out : Text) (daemon : Bool) (raw : Qctl)
      (c : AbstractClient) (w : W)
      → ArePauses view is
      → Ends daemon is
      → (view w).pending ≡ false
      → Fits (2 * buffer_size) (view w).contents
      → length (view w).contents + 1 < fuel
      → ArrivalsFit (2 * buffer_size) fuel is
      → RunDelivers
          (found daemon (view w).contents is)
          (left daemon is)
          out
          (run fuel (actions is) qspace queue buffer_size out daemon raw c w)
  run-Delivers fuel is buffer_size out daemon raw c w ps ends idle fits room later =
      let (r, q, w₁) = new_queue_instance (some qspace) (some queue) none raw c w in
      let (same, space, name, seen) =
        run-export_queue law quiet fuel (actions is) buffer_size out daemon raw c w in
      both (found daemon (view w).contents is) (left daemon is) out
        (run fuel (actions is) qspace queue buffer_size out daemon raw c w)
        (rw same (
          export_queue-Succeeds fuel daemon is buffer_size out q w₁ ps ends space name
            (new_queue_instance-bits quiet table qspace queue raw c w) (rw seen idle) (rw seen fits)
            (rw seen room) later))
        (run-Exports law quiet fuel is buffer_size out daemon raw c w ps)
