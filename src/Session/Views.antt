-- ===== src/Session/Views.antt =====
-- What each call of a program does to the queue.
use cpp_atmi.Prelude.{ℕ, ◌≡◌, ◌⊎◌, true, false, [], ◌∷◌, ◌++◌, Option, some, arith}
use cpp_atmi.Prelude.Int.{ℤ, pos, is_neg}
use cpp_atmi.Atmi.Codes.{Constants}
use cpp_atmi.Atmi.Texts.{Text, Texts}
use cpp_atmi.Atmi.Calls.{Atmi, Queueing, Ptr}
use cpp_atmi.Method.{Post}
use cpp_atmi.Tuxedo.{switch_context}
use cpp_atmi.Tuxedo.Reports.{demarcation-Reports}
use cpp_atmi.Queue.{Queue, Receiver, on_queue}
use cpp_atmi.Queue.Transfer.{enqueue, dequeue, enqueue_in, dequeue_from}
use cpp_atmi.Queue.Outcomes.{enqueue_in-Enqueues, dequeue_from-Dequeues}
use cpp_atmi.QueueStream.Server.{View, IsServer, IsSettled, kept}
use cpp_atmi.QueueStream.Switches.{switch_context-Post}
use cpp_atmi.Session.{begins, commits, aborts, takes, puts, perform}

module _ {W : Type 0} ⦃a : Atmi W⦄ ⦃t : Texts⦄ ⦃k : Constants⦄ ⦃s : Queueing W⦄
    {qspace queue : Text} {flags : ℕ} {view : W → View} {form : W → Ptr → ℕ → Text}
    (law : IsServer qspace queue flags view form) where
  abbrev pub Names : Receiver → Type 0
  Names r = (r.queue.qspace ≡ some qspace) × (r.queue.name ≡ some queue)

  pub begins-View :
      (timeout : ℤ) (r : Receiver) (w : W)
      → Names r
      → Post
          (λ rc r' w'.
            Names r'
            × ((view w).pending ≡ false)
            × ((view w').contents ≡ (view w).contents)
            × ((view w').saved ≡ (view w).contents)
            × ((view w').pending ≡ true))
          (λ e r' w'. Unit {0})
          (perform (begins timeout) r w)
  unfolding perform
  begins-View timeout r w n =
      ground (arith, n, (demarcation-Reports r.queue.tuxedo w timeout).0, law.begun timeout w)

  pub commits-View :
      (r : Receiver) (w : W)
      → Names r
      → Post
          (λ rc r' w'.
            Names r'
            × ((view w).pending ≡ true)
            × ((view w').contents ≡ (view w).contents)
            × IsSettled (view w'))
          (λ e r' w'. Unit {0})
          (perform commits r w)
  unfolding perform
  commits-View r w n =
      ground (arith, n, (demarcation-Reports r.queue.tuxedo w (pos 0)).1, law.committed w)

  pub aborts-View :
      (r : Receiver) (w : W)
      → Names r
      → Post
          (λ rc r' w'.
            Names r'
            × ((view w).pending ≡ true)
            × ((view w').contents ≡ (view w).saved)
            × IsSettled (view w'))
          (λ e r' w'. Unit {0})
          (perform aborts r w)
  unfolding perform
  aborts-View r w n =
      ground (arith, n, (demarcation-Reports r.queue.tuxedo w (pos 0)).2, law.aborted w)

  -- The queue after a message was added.
  abbrev pub Adds : Text → View → View → Type 0
  Adds m v v' =
      (v'.contents ≡ v.contents ++ m ∷ [])
      × (v'.saved ≡ kept v v'.contents)
      × (v'.pending ≡ v.pending)

  enqueue_in-View :
      (buf : Ptr) (len : ℕ) (q : Queue) (w : W)
      → Post
          (λ rc q' w'.
            (q'.qspace ≡ q.qspace) × (q'.name ≡ q.name) × Adds (form w buf len) (view w) (view w'))
          (λ e q' w'. view w' ≡ view w)
          (enqueue_in (some qspace) (some queue) buf len q w)
  enqueue_in-View buf len q w =
      let (o, base, w₁) = switch_context q.tuxedo w in
      let q₁ : Queue = record q { tuxedo = base } in
      ground (
        arith,
        switch_context-Post law q.tuxedo w buf len,
        enqueue_in-Enqueues qspace queue buf len q w,
        law.added q₁.qctl buf len q₁.flags w₁,
      )

  -- The queue after `dequeue` returned: a message was taken, or there is none.
  abbrev pub Removes : ℤ → Text → View → View → Type 0
  Removes rc m v v' =
      ((is_neg rc ≡ false)
        × (v.contents ≡ m ∷ v'.contents)
        × (v'.saved ≡ kept v v'.contents)
        × (v'.pending ≡ v.pending))
      ⊎ ((rc ≡ k.qmenomsg_value) × (v.contents ≡ []) × (v' ≡ v))

  dequeue_from-View :
      (r : Receiver) (w : W)
      → Post
          (λ rc r' w'.
            (r'.queue.qspace ≡ r.queue.qspace)
            × (r'.queue.name ≡ r.queue.name)
            × Removes rc (form w' r'.buf r'.len) (view w) (view w'))
          (λ e r' w'. view w' ≡ view w)
          (dequeue_from (some qspace) (some queue) r w)
  dequeue_from-View r w =
      let (o, base, w₁) = switch_context r.queue.tuxedo w in
      let q₁ : Queue = record r.queue { tuxedo = base } in
      ground (
        arith,
        switch_context-Post law r.queue.tuxedo w r.buf r.len,
        dequeue_from-Dequeues qspace queue r w,
        law.taken q₁.qctl r.buf r.len q₁.flags w₁,
        law.refused q₁.qctl r.buf r.len q₁.flags w₁,
      )

  puts_to :
      (buf : Ptr) (len : ℕ) (qs qn : Option Text) (r : Receiver) (w : W)
      → qs ≡ some qspace
      → qn ≡ some queue
      → Names r
      → Post
          (λ rc r' w'. Names r' × Adds (form w buf len) (view w) (view w'))
          (λ e r' w'. view w' ≡ view w)
          (on_queue (enqueue_in qs qn buf len) r w)
  puts_to buf len qs qn r w e₁ e₂ n =
      rw (e₁, e₂) (ground (arith, n, enqueue_in-View buf len r.queue w))

  pub puts-View :
      (buf : Ptr) (len : ℕ) (r : Receiver) (w : W)
      → Names r
      → Post
          (λ rc r' w'. Names r' × Adds (form w buf len) (view w) (view w'))
          (λ e r' w'. view w' ≡ view w)
          (perform (puts buf len) r w)
  unfolding perform enqueue
  puts-View buf len r w n = puts_to buf len r.queue.qspace r.queue.name r w n.0 n.1 n

  takes_from :
      (qs qn : Option Text) (r : Receiver) (w : W)
      → qs ≡ some qspace
      → qn ≡ some queue
      → Names r
      → Post
          (λ rc r' w'. Names r' × Removes rc (form w' r'.buf r'.len) (view w) (view w'))
          (λ e r' w'. view w' ≡ view w)
          (dequeue_from qs qn r w)
  takes_from qs qn r w e₁ e₂ n = rw (e₁, e₂) (ground (arith, n, dequeue_from-View r w))

  pub takes-View :
      (r : Receiver) (w : W)
      → Names r
      → Post
          (λ rc r' w'. Names r' × Removes rc (form w' r'.buf r'.len) (view w) (view w'))
          (λ e r' w'. view w' ≡ view w)
          (perform takes r w)
  unfolding perform dequeue
  takes-View r w n = takes_from r.queue.qspace r.queue.name r w n.0 n.1 n
