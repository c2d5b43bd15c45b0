-- ===== src/Session/Refines.antt =====
-- The calls of a program on a queue refine the steps of a list with transactions.
use cpp_atmi.Prelude.{ℕ, ◌≡◌, refl, List, [], ◌∷◌}
use cpp_atmi.Prelude.Int.{ℤ}
use cpp_atmi.Atmi.Codes.{Constants}
use cpp_atmi.Atmi.Texts.{Text, Texts}
use cpp_atmi.Atmi.Calls.{Atmi, Queueing, Ptr}
use cpp_atmi.Exceptions.{Exception}
use cpp_atmi.Method.{Outcome, ok, err, Post}
use cpp_atmi.Queue.{Receiver}
use cpp_atmi.QueueStream.Server.{View, IsServer}
use cpp_atmi.Session.{Command, perform, run}
use cpp_atmi.Session.Steps.{Means, Takes, Leaves, perform-Ends}
use cpp_atmi.Session.Views.{Names}
use cpp_atmi.Session.Fifo.{Fifo, Label, Step, Represents}

module _ {W : Type 0} ⦃a : Atmi W⦄ ⦃t : Texts⦄ ⦃k : Constants⦄ ⦃s : Queueing W⦄
    {qspace queue : Text} {flags : ℕ} {view : W → View} {form : W → Ptr → ℕ → Text}
    (law : IsServer qspace queue flags view form) where
  -- What a program does from the list `q` on: steps of the list, one for each call that returns and
  -- of the kind that the call asks for, up to the end of the program or a call that throws. The
  -- queue holds the list at the end, and also where a message could not be put or taken.
  pub data Simulates
      : List Command → Fifo → Receiver → W → Outcome (Unit {0}) × Receiver × W → Type 0 where
    ends :
        (q : Fifo) (r : Receiver) (w : W) → Represents q (view w) → Simulates [] q r w (ok tt, r, w)
    throws :
        (c : Command) (cs : List Command) (q : Fifo) (r r' : Receiver) (w w' : W) (e : Exception)
        → perform c r w ≡ (err e, r', w')
        → Leaves law c q w'
        → Simulates (c ∷ cs) q r w (err e, r', w')
    steps :
        (c : Command) (cs : List Command) (q q' : Fifo) (l : Label) (r r' : Receiver) (w w' : W)
        (rc : ℤ) (out : Outcome (Unit {0}) × Receiver × W)
        → perform c r w ≡ (ok rc, r', w')
        → Step q l q'
        → Means law c w rc r' w' l
        → Simulates cs q' r' w' out
        → Simulates (c ∷ cs) q r w out

  pub run-Simulates :
      (cs : List Command) (q : Fifo) (r : Receiver) (w : W)
      → Names law r
      → Represents q (view w)
      → Simulates cs q r w (run cs r w)
  unfolding run
  run-Simulates [] q r w n h = ends q r w h
  run-Simulates (c ∷ cs) q r w n h =
      go (λ q' r' w' n' h'. run-Simulates cs q' r' w' n' h') (perform c r w) refl
        (perform-Ends law c q r w n h)
    where
      go :
          ((q' : Fifo) (r' : Receiver) (w' : W)
            → Names law r'
            → Represents q' (view w')
            → Simulates cs q' r' w' (run cs r' w'))
          → (out : Outcome ℤ × Receiver × W) → perform c r w ≡ out
          → Post (λ rc r' w'. Takes law c q w rc r' w') (λ e r' w'. Leaves law c q w') out
          → Simulates
              (c ∷ cs)
              q
              r
              w
              (let (o', r', w') = out in elim o' [ ok rc ↦ run cs r' w' | err e ↦ (err e, r', w') ])
      go next (ok rc, r', w') same (l, q', step, means, held, names) =
          steps c cs q q' l r r' w w' rc (run cs r' w') same step means (next q' r' w' names held)
      go next (err e, r', w') same left = throws c cs q r r' w w' e same left
