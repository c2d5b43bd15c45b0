-- ===== src/Programs/Export/Rounds.antt =====
-- The loop of qexport, with other processes that put messages into the queue.
use mathlib.Core.List.{append-nil, append_assoc}
use cpp_atmi.Prelude.{
  ℕ, ◌+◌, ◌<◌, ◌≡◌, refl, inl, inr, Bool, true, false, not, Option, none, some, List, [], ◌∷◌, ◌++◌,
  ◌&&◌, map, if◌then◌else◌, arith, Bool-cases, Option-cases, ◌∙◌, sym, ap,
}
use cpp_atmi.Prelude.Lists.{length, length-append}
use cpp_atmi.Atmi.Codes.{Constants}
use cpp_atmi.Atmi.Texts.{Text, Texts}
use cpp_atmi.Atmi.Calls.{Atmi, Queueing, Ptr}
use cpp_atmi.Method.{Outcome, ok, err}
use cpp_atmi.Queue.{Queue}
use cpp_atmi.QueueStream.{QueueStream}
use cpp_atmi.QueueStream.Server.{View, IsServer, IsSettled, lines, with_data, with_data-append}
use cpp_atmi.QueueStream.Export.{Exporter, export, start}
use cpp_atmi.QueueStream.Export.Successes.{Fits}
use cpp_atmi.QueueStream.Export.Drains.{export-Drains}
use cpp_atmi.Programs.{Shell}
use cpp_atmi.Programs.Export.{export_rounds}

-- What happens between two rounds, the messages that are put into the queue then, and whether the
-- program is interrupted.
pub record Pause (W : Type 0) : Type 0 where
  pub acts : W → W
  pub arrivals : List Text
  pub stops : Bool

module _ {W : Type 0} where
  -- Whether another round follows.
  abbrev pub goes_on : Bool → Pause W → Bool
  goes_on daemon i = not i.stops && daemon

  -- The messages that the rounds find, one after the other, the first one `ms`.
  unfoldable pub found : Bool → List Text → List (Pause W) → List Text
  found daemon ms [] = []
  found daemon ms (i ∷ is) = ms ++ (if goes_on daemon i then found daemon i.arrivals is else [])

  -- Those that arrive after the last round.
  pub left : Bool → List (Pause W) → List Text
  left daemon [] = []
  left daemon (i ∷ is) = if goes_on daemon i then left daemon is else i.arrivals

  abbrev pub actions : List (Pause W) → List (W → W)
  actions is = map (λ i. i.acts) is

  -- The program is interrupted, or makes one round.
  abbrev pub Ends : Bool → List (Pause W) → Type 0
  Ends daemon [] = ⊥
  Ends daemon (i ∷ is) = goes_on daemon i ≡ true → Ends daemon is

  -- The messages that arrive fit the buffer and the fuel.
  abbrev pub ArrivalsFit : ℕ → ℕ → List (Pause W) → Type 0
  ArrivalsFit n fuel [] = Unit {0}
  ArrivalsFit n fuel (i ∷ is) =
      Fits n i.arrivals × (length i.arrivals + 1 < fuel) × ArrivalsFit n fuel is

lines-append : (ms ns : List Text) → lines (ms ++ ns) ≡ lines ms ++ lines ns
unfolding lines
lines-append [] ns = refl
lines-append (m ∷ ms) ns = simp (lines-append ms ns, append_assoc)

module _ {W : Type 0} ⦃h : Shell W⦄ (view : W → View) where
  pub record IsPause (i : Pause W) : Type 0 where
    pub adds : (w : W) → (view (i.acts w)).contents ≡ (view w).contents ++ i.arrivals
    pub stays : (w : W) → IsSettled (view w) → IsSettled (view (i.acts w))
    pub halts : (w : W) → h.running (i.acts w) ≡ not i.stops

  abbrev pub ArePauses : List (Pause W) → Type 0
  ArePauses [] = Unit {0}
  ArePauses (i ∷ is) = IsPause i × ArePauses is

module _ {W : Type 0} ⦃a : Atmi W⦄ ⦃t : Texts⦄ ⦃k : Constants⦄ ⦃s : Queueing W⦄ ⦃h : Shell W⦄
    {qspace queue : Text} {flags : ℕ} {view : W → View} {form : W → Ptr → ℕ → Text}
    (law : IsServer qspace queue flags view form) where
  -- The rounds have found `ms`, and the messages `rest` are left.
  abbrev pub Exported :
      List Text → List Text → ℕ → Text → Option (Outcome ℕ × Exporter × W) → Type 0
  Exported ms rest counter out none = Unit {0}
  Exported ms rest counter out (some (err e, x, w)) = Unit {0}
  Exported ms rest counter out (some (ok c, x, w)) =
      (x.out ≡ out ++ lines (with_data ms))
      × (c ≡ counter + length (with_data ms))
      × ((view w).contents ≡ rest)
      × IsSettled (view w)

  Exported-append :
      (ms ns rest : List Text) (counter : ℕ) (out : Text) (o : Option (Outcome ℕ × Exporter × W))
      → Exported ns rest (counter + length (with_data ms)) (out ++ lines (with_data ms)) o
      → Exported (ms ++ ns) rest counter out o
  Exported-append ms ns rest counter out none e = e
  Exported-append ms ns rest counter out (some (err e', x, w)) e = e
  Exported-append ms ns rest counter out (some (ok c, x, w)) (o, n, r, t) = (
    o
        ∙ append_assoc out (lines (with_data ms)) (lines (with_data ns))
        ∙ ap (λ l. out ++ l) (sym (lines-append (with_data ms) (with_data ns)))
        ∙ ap (λ ls. out ++ lines ls) (sym (with_data-append ms ns)),
    omega
        (arith, n, length-append (with_data ms) (with_data ns), ap length (with_data-append ms ns)),
    r,
    t,
  )

  -- One round that found `ms`, and the rounds behind it.
  after_round :
      (fuel : ℕ) (daemon : Bool) (i : Pause W) (is : List (Pause W)) (ms : List Text) (counter : ℕ)
      (out : Text) (x : Exporter) (w₁ : W)
      → IsPause view i
      → x.out ≡ out ++ lines (with_data ms)
      → x.stream.count ≡ length (with_data ms)
      → (view w₁).contents ≡ []
      → IsSettled (view w₁)
      → Exported
          (found daemon i.arrivals is)
          (left daemon is)
          (counter + length (with_data ms))
          (out ++ lines (with_data ms))
          (export_rounds fuel daemon
            (actions is)
            x.stream
            x.receiver.queue
            (counter + x.stream.count)
            x.out
            (i.acts w₁))
      → Exported
          (found daemon ms (i ∷ is))
          (left daemon (i ∷ is))
          counter
          out
          (elim (h.running (i.acts w₁) && daemon) [
            | true ↦
                export_rounds fuel daemon
                  (actions is)
                  x.stream
                  x.receiver.queue
                  (counter + x.stream.count)
                  x.out
                  (i.acts w₁)
            | false ↦ some (ok (counter + x.stream.count), x, i.acts w₁)
          ])
  unfolding found left
  after_round fuel daemon i is ms counter out x w₁ p written count empty settled more =
      elim (Bool-cases (goes_on daemon i)) [
        | inl on ↦
            rw (p.halts w₁, on)
              (Exported-append ms (found daemon i.arrivals is) (left daemon is) counter out
                (export_rounds fuel daemon (actions is) x.stream x.receiver.queue
                  (counter + x.stream.count) x.out (i.acts w₁))
                more)
        | inr off ↦
            rw (p.halts w₁, off, append-nil)
              (written, rw count, p.adds w₁ ∙ ap (λ c. c ++ i.arrivals) empty, p.stays w₁ settled)
      ]

  pub rounds-Exported :
      (fuel : ℕ) (daemon : Bool) (is : List (Pause W)) (qs : QueueStream) (q : Queue) (counter : ℕ)
      (out : Text) (w : W)
      → ArePauses view is
      → q.qspace ≡ some qspace
      → q.name ≡ some queue
      → qs.flags ≡ flags
      → Exported
          (found daemon (view w).contents is)
          (left daemon is)
          counter
          out
          (export_rounds fuel daemon (actions is) qs q counter out w)
  unfolding export_rounds start
  rounds-Exported fuel daemon [] qs q counter out w ps a₁ a₂ a₃ = tt
  rounds-Exported fuel daemon (i ∷ is) qs q counter out w (p, ps) a₁ a₂ a₃ =
      elim (Option-cases (export fuel qs q out w)) [
        | inl e ↦ rw (e, export_rounds) tt
        | inr ((err e', x, w₁), e) ↦ rw (e, export_rounds) tt
        | inr ((ok v, x, w₁), e) ↦
            let (names, written, count, empty, settled) =
              export-Drains law fuel qs q out w x w₁ a₁ a₂ a₃ e in
            let next : (view (i.acts w₁)).contents ≡ i.arrivals =
              p.adds w₁ ∙ ap (λ c. c ++ i.arrivals) empty in
            rw (e, export_rounds)
              (after_round fuel daemon i is (view w).contents counter out x w₁ p written count empty
                settled
                (rw (← next, ← count, ← written)
                  (rounds-Exported fuel daemon is x.stream x.receiver.queue
                    (counter + x.stream.count) x.out (i.acts w₁) ps (names.qspace ∙ a₁)
                    (names.queue ∙ a₂) (names.flags ∙ a₃))))
      ]
