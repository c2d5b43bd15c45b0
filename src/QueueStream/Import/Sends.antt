-- ===== src/QueueStream/Import/Sends.antt =====
-- What each step of an import does to the queue.
use cpp_atmi.Prelude.{ℕ, ◌≡◌, true, false, [], ◌∷◌, ◌++◌, Option, some, arith}
use cpp_atmi.Prelude.Int.{pos}
use cpp_atmi.Atmi.Codes.{Constants}
use cpp_atmi.Atmi.Texts.{Text, Texts}
use cpp_atmi.Atmi.Calls.{Atmi, Queueing, Ptr}
use cpp_atmi.Exceptions.{Exception}
use cpp_atmi.Method.{Post}
use cpp_atmi.Tuxedo.{begin, commit, switch_context}
use cpp_atmi.Tuxedo.Reports.{demarcation-Reports}
use cpp_atmi.Queue.{Queue}
use cpp_atmi.Queue.Transfer.{enqueue, enqueue_in}
use cpp_atmi.Queue.Outcomes.{enqueue_in-Enqueues}
use cpp_atmi.QueueStream.Server.{View, IsServer, IsSettled, kept}
use cpp_atmi.QueueStream.Switches.{switch_context-Post}
use cpp_atmi.QueueStream.Import.{Importer, on_queue, on_base}

module _ {W : Type 0} ⦃a : Atmi W⦄ ⦃t : Texts⦄ ⦃k : Constants⦄ ⦃s : Queueing W⦄
    {qspace queue : Text} {flags : ℕ} {view : W → View} {form : W → Ptr → ℕ → Text}
    (law : IsServer qspace queue flags view form) where
  abbrev pub Names : Importer → Type 0
  Names x = (x.queue.qspace ≡ some qspace) × (x.queue.name ≡ some queue) × (x.stream.flags ≡ flags)

  -- A message was added.
  abbrev pub Adds : Text → View → View → Type 0
  Adds m v v' =
      (v'.contents ≡ v.contents ++ m ∷ [])
      × (v'.saved ≡ kept v v'.contents)
      × (v'.pending ≡ v.pending)

  abbrev Any : Exception → Importer → W → Type 0
  Any e x w = Unit {0}

  pub begin-Post :
      (x : Importer) (w : W)
      → Post
          (λ v x' w'.
            (x'.queue.qspace ≡ x.queue.qspace)
            × (x'.queue.name ≡ x.queue.name)
            × (x'.stream ≡ x.stream)
            × (x'.buf ≡ x.buf)
            × (x'.len ≡ x.len)
            × ((view w).pending ≡ false)
            × ((view w').contents ≡ (view w).contents)
            × ((view w').pending ≡ true)
            × (form w' x.buf x.len ≡ form w x.buf x.len))
          Any
          (on_base (begin (pos 0)) x w)
  begin-Post x w = ground (
    arith,
    (demarcation-Reports x.queue.tuxedo w (pos 0)).0,
    law.begun (pos 0) w,
    law.begun_form (pos 0) w x.buf x.len,
  )

  pub commit-Post :
      (x : Importer) (w : W)
      → Post
          (λ v x' w'.
            (x'.queue.qspace ≡ x.queue.qspace)
            × (x'.queue.name ≡ x.queue.name)
            × (x'.stream ≡ x.stream)
            × ((view w').contents ≡ (view w).contents)
            × IsSettled (view w'))
          Any
          (on_base commit x w)
  commit-Post x w =
      ground (arith, (demarcation-Reports x.queue.tuxedo w (pos 0)).1, law.committed w)

  send-Post :
      (x : Importer) (w : W)
      → Post
          (λ rc x' w'.
            (x'.queue.qspace ≡ x.queue.qspace)
            × (x'.queue.name ≡ x.queue.name)
            × (x'.stream ≡ x.stream)
            × Adds (form w x.buf x.len) (view w) (view w'))
          Any
          (on_queue (enqueue_in (some qspace) (some queue) x.buf x.len) x w)
  send-Post x w =
      let (r, base, w₁) = switch_context x.queue.tuxedo w in
      let q : Queue = record x.queue { tuxedo = base } in
      ground (
        arith,
        switch_context-Post law x.queue.tuxedo w x.buf x.len,
        enqueue_in-Enqueues qspace queue x.buf x.len x.queue w,
        law.added q.qctl x.buf x.len q.flags w₁,
      )

  enqueue_by-Post :
      (qs qn : Option Text) (x : Importer) (w : W)
      → qs ≡ some qspace
      → qn ≡ some queue
      → Post
          (λ rc x' w'.
            (x'.queue.qspace ≡ x.queue.qspace)
            × (x'.queue.name ≡ x.queue.name)
            × (x'.stream ≡ x.stream)
            × Adds (form w x.buf x.len) (view w) (view w'))
          Any
          (on_queue (enqueue_in qs qn x.buf x.len) x w)
  enqueue_by-Post qs qn x w p q = rw (p, q) (send-Post x w)

  pub enqueue-Post :
      (x : Importer) (w : W)
      → Names x
      → Post
          (λ rc x' w'.
            (x'.queue.qspace ≡ x.queue.qspace)
            × (x'.queue.name ≡ x.queue.name)
            × (x'.stream ≡ x.stream)
            × Adds (form w x.buf x.len) (view w) (view w'))
          Any
          (on_queue (enqueue x.buf x.len) x w)
  unfolding enqueue
  enqueue-Post x w n = enqueue_by-Post x.queue.qspace x.queue.name x w n.0 n.1
