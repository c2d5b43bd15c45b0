-- ===== src/QueueStream/Import/Finishes.antt =====
-- In a domain where nothing fails, an import returns.
use cpp_atmi.Prelude.{ℕ, ◌≡◌, true, false, List, [], ◌∷◌, ◌++◌, Option, none, some, arith}
use cpp_atmi.Prelude.Int.{pos}
use cpp_atmi.Prelude.Lists.{length}
use cpp_atmi.Atmi.Codes.{Constants}
use cpp_atmi.Atmi.Texts.{Text, Texts, bytes}
use cpp_atmi.Atmi.Calls.{Atmi, Queueing, Ptr}
use cpp_atmi.Method.{Outcome, ok, err, Post, Post-mono}
use cpp_atmi.Tuxedo.{begin, commit, switch_context, free}
use cpp_atmi.Tuxedo.Reports.{demarcation-Reports, memory-Reports}
use cpp_atmi.Queue.{Queue}
use cpp_atmi.Queue.Transfer.{enqueue, enqueue_in}
use cpp_atmi.Queue.Outcomes.{enqueue_in-Enqueues}
use cpp_atmi.QueueStream.{QueueStream}
use cpp_atmi.QueueStream.Server.{View, IsServer, IsReliable, IsAccepting, IsSettled}
use cpp_atmi.QueueStream.Export.Successes.{switch_context-ok}
use cpp_atmi.QueueStream.Import.{
  Importer, on_queue, on_base, get_lines, put_message, import_line, import_lines, prepare,
  free_message, import,
}
use cpp_atmi.QueueStream.Import.Sends.{Names, begin-Post, enqueue-Post}
use cpp_atmi.QueueStream.Import.Appends.{import_line-Post, prepare-Post, import-Imports}

module _ {W : Type 0} ⦃a : Atmi W⦄ ⦃t : Texts⦄ ⦃k : Constants⦄ ⦃s : Queueing W⦄
    {qspace queue : Text} {flags : ℕ} {view : W → View} {form : W → Ptr → ℕ → Text}
    (law : IsServer qspace queue flags view form) (works : IsReliable qspace queue flags view form)
    (accepts : IsAccepting W qspace queue flags) where
  -- The call returns.
  abbrev Returns : {A : Type 0} → Outcome A × Importer × W → Type 0
  Returns o = Post (λ v x' w'. Unit {0}) (λ e x' w'. ⊥) o

  begin-ok :
      (x : Importer) (w : W) → (view w).pending ≡ false → Returns (on_base (begin (pos 0)) x w)
  begin-ok x w idle =
      ground
        (arith, idle, (demarcation-Reports x.queue.tuxedo w (pos 0)).0, works.begin_ok (pos 0) w)

  commit-ok : (x : Importer) (w : W) → (view w).pending ≡ true → Returns (on_base commit x w)
  commit-ok x w inside =
      ground (arith, inside, (demarcation-Reports x.queue.tuxedo w (pos 0)).1, works.commit_ok w)

  enqueue_by-ok :
      (qs qn : Option Text) (x : Importer) (w : W)
      → qs ≡ some qspace
      → qn ≡ some queue
      → Returns (on_queue (enqueue_in qs qn x.buf x.len) x w)
  enqueue_by-ok qs qn x w p q =
      let (r, base, w₁) = switch_context x.queue.tuxedo w in
      let q₁ : Queue = record x.queue { tuxedo = base } in
      rw (p, q)
        (ground (
          arith,
          switch_context-ok law works x.queue.tuxedo w,
          enqueue_in-Enqueues qspace queue x.buf x.len x.queue w,
          accepts.placed q₁.qctl x.buf x.len q₁.flags w₁,
        ))

  pub enqueue-ok :
      (x : Importer) (w : W) → Names law x → Returns (on_queue (enqueue x.buf x.len) x w)
  unfolding enqueue
  enqueue-ok x w n = enqueue_by-ok x.queue.qspace x.queue.name x w n.0 n.1

  put_message-ok :
      (x : Importer) (w : W) → Names law x → (view w).pending ≡ false → Returns (put_message x w)
  unfolding put_message
  put_message-ok x w n idle =
      let (r₁, x₁, w₁) = on_base (begin (pos 0)) x w in
      let (r₂, x₂, w₂) = on_queue (enqueue x₁.buf x₁.len) x₁ w₁ in
      ground (
        arith,
        idle,
        begin-ok x w,
        begin-Post law x w,
        enqueue-ok x₁ w₁,
        enqueue-Post law x₁ w₁,
        commit-ok x₂ w₂,
      )

  import_line-ok :
      (line : Text) (x : Importer) (w : W)
      → Names law x
      → (view w).pending ≡ false
      → Returns (import_line line x w)
  unfolding import_line
  import_line-ok line x w n idle =
      let r = s.tpimport line (length line) x.buf x.len x.stream.flags w in
      let x₁ : Importer = record x { buf = r.buf; len = r.len } in
      ground (
        arith,
        accepts.understood line x.buf x.len w,
        law.imported line x.buf x.len w,
        idle,
        put_message-ok x₁ r.world,
      )

  import_lines-ok :
      (ls : List Text) (x : Importer) (w : W)
      → Names law x
      → IsSettled (view w)
      → Returns (import_lines ls x w)
  unfolding import_lines
  import_lines-ok [] x w n settled = tt
  import_lines-ok (l ∷ ls) x w n settled =
      let (r, x₁, w₁) = import_line l x w in
      ground (
        arith,
        settled,
        import_line-ok l x w n settled.0,
        import_line-Post law l x w n,
        import_lines-ok ls x₁ w₁,
      )

  prepare-ok : (x : Importer) (w : W) → Returns (prepare x w)
  unfolding prepare
  prepare-ok x w = ground (
    arith,
    (memory-Reports x.stream.tuxedo w (bytes "CARRAY") none none x.len).0,
    works.alloc_ok (bytes "CARRAY") none x.len w,
  )

  import-Returns :
      (text : Text) (qs : QueueStream) (q : Queue) (w : W)
      → q.qspace ≡ some qspace
      → q.name ≡ some queue
      → qs.flags ≡ flags
      → IsSettled (view w)
      → Returns (import text qs q w)
  unfolding import free_message free
  import-Returns text qs q w a₁ a₂ a₃ settled =
      let x₀ : Importer = record { stream = qs; queue = q; buf = none; len = qs.buffer_size } in
      let (r, x₁, w₁) = prepare x₀ w in
      ground (
        arith,
        settled,
        prepare-ok x₀ w,
        prepare-Post law x₀ w,
        import_lines-ok (get_lines text) x₁ w₁,
      )

  -- The two postconditions of one run.
  both :
      {A : Type 0} (P : A → Importer → W → Type 0) (o : Outcome A × Importer × W)
      → Returns o
      → Post P (λ e x w. Unit {0}) o
      → Post P (λ e x w. ⊥) o
  both P (ok v, x, w) r h = h
  both P (err e, x, w) r h = r

  -- The text is imported, and nothing is thrown.
  abbrev pub Delivers : List Text → W → Outcome (Unit {0}) × Importer × W → Type 0
  Delivers ls w o =
      Post
        (λ v x' w'.
          ((view w').contents ≡ (view w).contents ++ ls)
          × (x'.stream.count ≡ length ls)
          × IsSettled (view w'))
        (λ e x' w'. ⊥) o

  pub import-Delivers :
      (text : Text) (qs : QueueStream) (q : Queue) (w : W)
      → q.qspace ≡ some qspace
      → q.name ≡ some queue
      → qs.flags ≡ flags
      → IsSettled (view w)
      → Delivers (get_lines text) w (import text qs q w)
  import-Delivers text qs q w a₁ a₂ a₃ settled =
      Post-mono (import text qs q w) (λ v x' w' h. (h.0, h.1, h.2 settled)) (λ e x' w' h. h)
        (both _ (import text qs q w) (import-Returns text qs q w a₁ a₂ a₃ settled)
          (import-Imports law text qs q w a₁ a₂ a₃))
