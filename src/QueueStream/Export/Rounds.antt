-- ===== src/QueueStream/Export/Rounds.antt =====
-- One round of the export, and the whole loop: every message goes to the stream, once, in order.
use mathlib.Core.List.{append_assoc}
use cpp_atmi.Prelude.{ℕ, ◌+◌, ◌≡◌, true, false, List, [], ◌∷◌, ◌++◌, arith}
use cpp_atmi.Prelude.Int.{ℤ, pos, eqb_iff}
use cpp_atmi.Prelude.Lists.{length}
use cpp_atmi.Atmi.Codes.{Constants}
use cpp_atmi.Atmi.Texts.{Text, Texts}
use cpp_atmi.Atmi.Calls.{Atmi, Queueing, Ptr}
use cpp_atmi.Exceptions.{Exception, is_timeout}
use cpp_atmi.Method.{pure, ◌>>=◌, Post, >>=-Post, Post-mono}
use cpp_atmi.Tuxedo.{begin}
use cpp_atmi.Queue.Transfer.{dequeue}
use cpp_atmi.QueueStream.Server.{
  View, IsServer, IsSettled, lines, with_data, with_data-some, with_data-none,
}
use cpp_atmi.QueueStream.Export.{
  Exporter, on_queue, on_receiver, export_message, take_message, handle_message,
}
use cpp_atmi.QueueStream.Export.Steps.{
  SameNames, Keeps, Names, Brings, begin-Post, commit-Post, dequeue-Post, export_message-Post,
}

lines_cons : (o m : Text) (ms : List Text) → (o ++ m ++ 10 ∷ []) ++ lines ms ≡ o ++ lines (m ∷ ms)
unfolding lines
lines_cons o m ms = simp append_assoc

module _ {W : Type 0} ⦃a : Atmi W⦄ ⦃t : Texts⦄ ⦃k : Constants⦄ ⦃s : Queueing W⦄
    {qspace queue : Text} {flags : ℕ} {view : W → View} {form : W → Ptr → ℕ → Text}
    (law : IsServer qspace queue flags view form) where
  -- What is written and what is still in the queue make up the same file, and what is counted and
  -- what is still in the queue the same number.
  pub record Conserves (x : Exporter) (w : W) (x' : Exporter) (w' : W) : Type 0 where
    pub names : SameNames x x'
    pub out :
        x'.out ++ lines (with_data (view w').contents)
        ≡ x.out ++ lines (with_data (view w).contents)
    pub count :
        x'.stream.count + length (with_data (view w').contents)
        ≡ x.stream.count + length (with_data (view w).contents)
    pub settled : IsSettled (view w')
    pub done : x'.rc ≡ k.qmenomsg_value → (view w').contents ≡ []

  -- After a `dequeue` the message is written, or there is none; then the round commits.
  pub handle_message-Post :
      (rc : ℤ) (x x' : Exporter) (w w' : W)
      → Names law x
      → (view w).pending ≡ true
      → Brings law rc x w x' w'
      → Post
          (λ v x'' w''. Conserves x w x'' w'')
          (λ e x'' w''. is_timeout e.class ≡ false)
          (handle_message rc x' w')
  unfolding handle_message
  handle_message-Post rc x x' w w' n inside b =
      let x₁ : Exporter = record x' { rc = rc } in
      let (r₂, x₂, w₂) = export_message x₁ w' in
      ground (
        arith,
        law.nomsg_neg,
        eqb_iff rc k.qmenomsg_value,
        export_message-Post law x₁ w',
        commit-Post law x₁ w',
        commit-Post law x₂ w₂,
        lines_cons x.out (form w' x'.receiver.buf x'.receiver.len) (with_data (view w').contents),
        with_data-some (form w' x'.receiver.buf x'.receiver.len) (view w').contents,
        with_data-none (form w' x'.receiver.buf x'.receiver.len) (view w').contents,
      )

  -- A timeout has written nothing, and aborting brings the queue back as it was.
  abbrev pub Undone : Exporter → W → Exception → Exporter → W → Type 0
  Undone x w e x' w' =
      is_timeout e.class ≡ true
      → Keeps x x' × ((view w').saved ≡ (view w).contents) × ((view w').pending ≡ true)

  Conserves-from :
      {x x₁ : Exporter} {w w₁ : W}
      → Keeps x x₁
      → (view w₁).contents ≡ (view w).contents
      → (x' : Exporter) (w' : W) → Conserves x₁ w₁ x' w'
      → Conserves x w x' w'
  Conserves-from kept same x' w' c = ground (arith, same)

  -- The part of the `try` behind `begin`.
  received-Post :
      (x : Exporter) (w : W)
      → Names law x
      → (view w).saved ≡ (view w).contents
      → (view w).pending ≡ true
      → Post
          (λ v x' w'. Conserves x w x' w')
          (Undone x w)
          ((on_receiver dequeue >>= handle_message) x w)
  received-Post x w n fresh inside =
      >>=-Post (λ rc x' w'. Brings law rc x w x' w') _ (Undone x w) (on_receiver dequeue)
        handle_message x w
        (Post-mono (on_receiver dequeue x w) (λ rc x' w' b. b)
          (λ e x' w' h late. ground (arith, h late, inside)) (dequeue-Post law x w n))
        (λ rc x' w' b.
          Post-mono (handle_message rc x' w') (λ v x'' w'' c. c) (λ e x'' w'' plain late. cc)
            (handle_message-Post rc x x' w w' n inside b))

  pub take_message-Post :
      (x : Exporter) (w : W)
      → Names law x
      → Post (λ v x' w'. Conserves x w x' w') (Undone x w) (take_message x w)
  unfolding take_message
  take_message-Post x w n =
      >>=-Post
        (λ v x₁ w₁.
          Keeps x x₁
          × ((view w₁).contents ≡ (view w).contents)
          × ((view w₁).saved ≡ (view w).contents)
          × ((view w₁).pending ≡ true))
        _ (Undone x w) (on_queue (begin (pos 0)) >>= λ _. pure tt)
        (λ _. on_receiver dequeue >>= handle_message) x w (ground (arith, begin-Post law x w))
        (λ v x₁ w₁ p.
          Post-mono ((on_receiver dequeue >>= handle_message) x₁ w₁)
            (λ v' x' w' c. Conserves-from p.0 p.1 x' w' c)
            (λ e x' w' h late. ground (arith, h late))
            (received-Post x₁ w₁ (ground arith) (ground arith) (ground arith)))
