-- ===== src/QueueStream/Export/Drains.antt =====
-- The loop and the operator: an export that returns has drained the queue into the stream.
use mathlib.Core.List.{append-nil}
use cpp_atmi.Prelude.{
  ℕ, zero, suc, ◌+◌, ◌≡◌, refl, ◌≢◌, inl, inr, List, [], ◌++◌, Option, none, some, arith,
  Bool-cases, Option-cases,
}
use cpp_atmi.Prelude.Int.{eqb, eqb_iff}
use cpp_atmi.Prelude.Lists.{length}
use cpp_atmi.Atmi.Codes.{Constants}
use cpp_atmi.Atmi.Texts.{Text, Texts, bytes}
use cpp_atmi.Atmi.Calls.{Atmi, Queueing, Ptr}
use cpp_atmi.Exceptions.{Exception}
use cpp_atmi.Method.{Outcome, ok, err, Post, Outcome-cases}
use cpp_atmi.Tuxedo.{free}
use cpp_atmi.Tuxedo.Reports.{memory-Reports}
use cpp_atmi.Queue.{Queue}
use cpp_atmi.QueueStream.{QueueStream}
use cpp_atmi.QueueStream.Server.{View, IsServer, IsSettled, lines, with_data}
use cpp_atmi.QueueStream.Export.{
  Exporter, round, take_message, loop, export, start, prepare, conclude, give_up, free_message,
}
use cpp_atmi.QueueStream.Export.Steps.{SameNames, Names, abort-Post}
use cpp_atmi.QueueStream.Export.Rounds.{Conserves, take_message-Post}

lines_end :
    (o : Text) (ms : List Text)
    → ms ≡ []
    → (o ++ lines (with_data ms) ≡ o) × (length (with_data ms) ≡ 0)
unfolding lines with_data
lines_end o ms e = rw e (append-nil o, refl)

module _ {W : Type 0} ⦃a : Atmi W⦄ ⦃t : Texts⦄ ⦃k : Constants⦄ ⦃s : Queueing W⦄
    {qspace queue : Text} {flags : ℕ} {view : W → View} {form : W → Ptr → ℕ → Text}
    (law : IsServer qspace queue flags view form) where
  -- A round that returns conserves the messages, also where it ended in a timeout.
  pub round-Post :
      (x : Exporter) (w : W)
      → Names law x
      → x.rc ≢ k.qmenomsg_value
      → Post (λ v x' w'. Conserves law x w x' w') (λ e x' w'. Unit {0}) (round x w)
  unfolding round
  round-Post x w n more =
      let (r, x', w') = take_message x w in
      ground (arith, take_message-Post law x w n, abort-Post law x' w')

  Conserves-trans :
      {x x₁ x₂ : Exporter} {w w₁ w₂ : W}
      → Conserves law x w x₁ w₁
      → Conserves law x₁ w₁ x₂ w₂
      → Conserves law x w x₂ w₂
  Conserves-trans c d = ground arith

  pub loop-Conserves :
      (fuel : ℕ) (x x' : Exporter) (w w' : W)
      → Names law x
      → (x.rc ≡ k.qmenomsg_value → ((view w).contents ≡ []) × IsSettled (view w))
      → loop fuel x w ≡ some (ok tt, x', w')
      → Conserves law x w x' w' × (x'.rc ≡ k.qmenomsg_value)
  unfolding loop
  loop-Conserves zero x x' w w' n stop h = cc
  loop-Conserves (suc fuel) x x' w w' n stop h =
      let (r, x₁, w₁) = round x w in
      elim (Bool-cases (eqb x.rc k.qmenomsg_value)) [
        | inl last ↦ ground (arith, eqb_iff x.rc k.qmenomsg_value)
        | inr more ↦ ground (
          arith,
          eqb_iff x.rc k.qmenomsg_value,
          round-Post x w n,
          loop-Conserves fuel x₁ x' w₁ w',
        )
      ]

  -- What the operator does before the loop.
  pub prepare-Post :
      (x : Exporter) (w : W)
      → Post
          (λ v x' w'.
            SameNames x x'
            × (x'.out ≡ x.out)
            × (x'.stream.count ≡ 0)
            × (x'.rc ≡ x.rc)
            × (view w' ≡ view w))
          (λ e x' w'. Unit {0})
          (prepare x w)
  unfolding prepare
  prepare-Post x w = ground (
    arith,
    (memory-Reports x.stream.tuxedo w (bytes "CARRAY") none none x.receiver.len).0,
    law.allocated (bytes "CARRAY") none x.receiver.len w,
  )

  -- What it does after the loop.
  conclude-ok :
      (e : Exception) (x : Exporter) (w : W) (x' : Exporter) (w' : W)
      → ¬ (conclude (err e, x, w) ≡ (ok tt, x', w'))
  unfolding conclude give_up
  conclude-ok e x w x' w' h = ground arith

  free-Post :
      (v : Unit {0}) (x : Exporter) (w : W) (x' : Exporter) (w' : W)
      → conclude (ok v, x, w) ≡ (ok tt, x', w')
      → SameNames x x' × (x'.out ≡ x.out) × (x'.stream.count ≡ x.stream.count) × (view w' ≡ view w)
  unfolding conclude free_message free
  free-Post v x w x' w' h = elim (Option-cases x.receiver.buf) [
    | inl e ↦ ground arith
    | inr (p, e) ↦ ground (arith, law.freed p w)
  ]

  finish : Option (Outcome (Unit {0}) × Exporter × W) → Option (Outcome (Unit {0}) × Exporter × W)
  finish none = none
  finish (some done) = some (conclude done)

  finish-drains :
      (fuel : ℕ) (x x' : Exporter) (w w' : W) (o : Option (Outcome (Unit {0}) × Exporter × W))
      → Names law x
      → (x.rc ≡ k.qmenomsg_value → ((view w).contents ≡ []) × IsSettled (view w))
      → loop fuel x w ≡ o
      → finish o ≡ some (ok tt, x', w')
      → SameNames x x'
        × (x'.out ≡ x.out ++ lines (with_data (view w).contents))
        × (x'.stream.count ≡ x.stream.count + length (with_data (view w).contents))
        × ((view w').contents ≡ [])
        × IsSettled (view w')
  unfolding finish
  finish-drains fuel x x' w w' none n stop e h = cc
  finish-drains fuel x x' w w' (some (err e', x₂, w₂)) n stop e h =
      absurd (conclude-ok e' x₂ w₂ x' w' (ground arith))
  finish-drains fuel x x' w w' (some (ok v, x₂, w₂)) n stop e h = ground (
    arith,
    loop-Conserves fuel x x₂ w w₂ n stop,
    free-Post v x₂ w₂ x' w',
    lines_end x₂.out (view w₂).contents,
  )

  -- An export that returns: what it wrote, and what it left alone.
  pub export-Drains :
      (fuel : ℕ) (qs : QueueStream) (q : Queue) (out : Text) (w : W) (x' : Exporter) (w' : W)
      → q.qspace ≡ some qspace
      → q.name ≡ some queue
      → qs.flags ≡ flags
      → export fuel qs q out w ≡ some (ok tt, x', w')
      → SameNames (start qs q out) x'
        × (x'.out ≡ out ++ lines (with_data (view w).contents))
        × (x'.stream.count ≡ length (with_data (view w).contents))
        × ((view w').contents ≡ [])
        × IsSettled (view w')
  unfolding export finish conclude
  export-Drains fuel qs q out w x' w' a₁ a₂ a₃ h =
      let x₀ : Exporter = start qs q out in
      let (r, x₁, w₁) = prepare x₀ w in
      elim (Outcome-cases r) [
        | inr (e, failed) ↦ absurd (conclude-ok e x₁ w₁ x' w' (ground (arith, failed)))
        | inl (v, ready) ↦ ground (
          arith,
          law.nomsg_other,
          prepare-Post x₀ w,
          finish-drains fuel x₁ x' w₁ w' (loop fuel x₁ w₁),
        )
      ]

  pub export-drains :
      (fuel : ℕ) (qs : QueueStream) (q : Queue) (out : Text) (w : W) (x' : Exporter) (w' : W)
      → q.qspace ≡ some qspace
      → q.name ≡ some queue
      → qs.flags ≡ flags
      → export fuel qs q out w ≡ some (ok tt, x', w')
      → (x'.out ≡ out ++ lines (with_data (view w).contents))
        × (x'.stream.count ≡ length (with_data (view w).contents))
        × ((view w').contents ≡ [])
        × IsSettled (view w')
  export-drains fuel qs q out w x' w' a₁ a₂ a₃ h =
      let (names, written, count, empty, settled) =
        export-Drains fuel qs q out w x' w' a₁ a₂ a₃ h in
      (written, count, empty, settled)
