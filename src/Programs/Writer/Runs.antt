-- ===== src/Programs/Writer/Runs.antt =====
-- What a run of qwriter adds to the queue.
use mathlib.Core.Option
use mathlib.Core.List.{append-nil, append_assoc, map-append}
use cpp_atmi.Prelude.{
  ℕ, zero, suc, ◌+◌, ◌≤◌, ◌≡◌, ◌≢◌, refl, inl, inr, true, false, Option, none, some, List, [], ◌∷◌,
  ◌++◌, map, arith, ◌∙◌, ap, sym, Bool-cases, Option-cases,
}
use cpp_atmi.Prelude.Lists.{length}
use cpp_atmi.Atmi.Codes.{Constants}
use cpp_atmi.Atmi.Texts.{Text, Texts, bytes, strncpy-replicate}
use cpp_atmi.Atmi.Calls.{Atmi, Queueing, Qctl, Ptr}
use cpp_atmi.Method.{Outcome, ok, err, Post, Outcome-cases}
use cpp_atmi.Tuxedo.{allocate, destroy}
use cpp_atmi.Tuxedo.Reports.{memory-Reports}
use cpp_atmi.Buffer.{text_eqb}
use cpp_atmi.QueueStream.Server.{View, IsServer, IsReliable, IsAccepting, IsSettled}
use cpp_atmi.QueueStream.Import.{Importer}
use cpp_atmi.QueueStream.Import.Sends.{enqueue-Post}
use cpp_atmi.QueueStream.Import.Finishes.{enqueue-ok}
use cpp_atmi.Client.{AbstractClient}
use cpp_atmi.Client.Factories.{new_queue_instance}
use cpp_atmi.Options.{Process}
use cpp_atmi.Programs.{Shell, Exit, IsQuiet}
use cpp_atmi.Programs.Quiet.{new_queue_instance-view}
use cpp_atmi.Programs.Writer.{Writer, Memory, getline, write_message, write_lines, write_ends, run}

-- The messages in front of the first line that is `quit`, without the empty lines; `none` where
-- there is no such line.
pub messages : List Text → Option (List Text)
messages [] = none
messages (line ∷ lines) = elim (text_eqb line (bytes "quit")) [
  | true ↦ some []
  | false ↦ elim line [
    | [] ↦ messages lines
    | c ∷ cs ↦ Option.map (λ ms. (c ∷ cs) ∷ ms) (messages lines)
  ]
]

module _ {W : Type 0} ⦃a : Atmi W⦄ ⦃t : Texts⦄ ⦃k : Constants⦄ ⦃s : Queueing W⦄ ⦃h : Shell W⦄
    ⦃p : Process W⦄ ⦃m : Memory W⦄ where
  -- A message that is stored with its NUL has the external form `encode`; a prompt and the storing
  -- leave the queue alone.
  pub record IsMemory (view : W → View) (form : W → Ptr → ℕ → Text) (encode : Text → Text)
      : Type 0 where
    pub stored :
        (buf : Ptr) (msg : Text) (w : W)
        → (form (m.store buf (msg ++ 0 ∷ []) w) buf (length msg) ≡ encode msg)
          × (view (m.store buf (msg ++ 0 ∷ []) w) ≡ view w)
    pub prompted : (msg : Text) (w : W) → view (p.cout msg w) ≡ view w

module _ {W : Type 0} ⦃a : Atmi W⦄ ⦃t : Texts⦄ ⦃k : Constants⦄ ⦃s : Queueing W⦄ ⦃h : Shell W⦄
    ⦃p : Process W⦄ ⦃m : Memory W⦄ {qspace queue : Text} {flags : ℕ} {view : W → View}
    {form : W → Ptr → ℕ → Text} {encode : Text → Text} (law : IsServer qspace queue flags view form)
    (works : IsReliable qspace queue flags view form) (accepts : IsAccepting W qspace queue flags)
    (quiet : IsQuiet view) (keeps : IsMemory view form encode) where
  abbrev Named : Writer → Type 0
  Named x = (x.queue.qspace ≡ some qspace) × (x.queue.name ≡ some queue)

  -- Any stream beside the queue.
  abbrev beside : Writer → Ptr → ℕ → Importer
  beside x buf len = record {
    stream = record {
      tuxedo = record x.queue.tuxedo { flags = flags };
      count = 0;
      buffer_size = 0;
    };
    queue = x.queue;
    buf = buf;
    len = len;
  }

  -- The messages `ms` were put at the end of the queue, for good where no transaction is in
  -- progress.
  abbrev Grows : List Text → W → W → Type 0
  Grows ms w w' =
      ((view w').contents ≡ (view w).contents ++ map encode ms)
      × (IsSettled (view w) → IsSettled (view w'))

  Grows-same : (w w' : W) → view w' ≡ view w → Grows [] w w'
  Grows-same w w' h =
      (ap View.contents h ∙ sym (append-nil (view w).contents), λ settled. rw h settled)

  Grows-more :
      (ms ns : List Text) (w w₁ w₂ : W) → Grows ms w w₁ → Grows ns w₁ w₂ → Grows (ms ++ ns) w w₂
  Grows-more ms ns w w₁ w₂ (one, kept₁) (two, kept₂) = (
    two
        ∙ ap (λ c. c ++ map encode ns) one
        ∙ append_assoc (view w).contents (map encode ms) (map encode ns)
        ∙ ap (λ c. (view w).contents ++ c) (sym (map-append encode ms ns)),
    λ settled. kept₂ (kept₁ settled),
  )

  write_message-Post :
      (msg : Text) (x : Writer) (w : W)
      → Named x
      → Post (λ v x' w'. Named x' × Grows (msg ∷ []) w w') (λ e x' w'. ⊥) (write_message msg x w)
  unfolding write_message
  write_message-Post msg x w n =
      let size = length msg in
      let (r, c, w₁) = allocate (bytes "STRING") none (size + 1) x.client.tuxedo w in
      let allocated = (memory-Reports x.client.tuxedo w (bytes "STRING") none none (size + 1)).0 in
      elim (Outcome-cases r) [
        | inr (e, failed) ↦
            absurd
              (ground (arith, failed, allocated, works.alloc_ok (bytes "STRING") none (size + 1) w))
        | inl (buf, made) ↦
            let x₁ : Importer = beside x buf size in
            let w₂ = m.store buf (msg ++ 0 ∷ []) w₁ in
            ground (
              arith,
              made,
              allocated,
              law.allocated (bytes "STRING") none (size + 1) w,
              strncpy-replicate msg,
              keeps.stored buf msg w₁,
              enqueue-Post law x₁ w₂,
              enqueue-ok law works accepts x₁ w₂,
            )
      ]

  -- The loop ends exactly if there are messages up to a `quit`, and then has added them.
  abbrev Written : Option (List Text) → W → Option (Outcome (Unit {0}) × Writer × W) → Type 0
  Written none w o = o ≡ none
  Written (some ms) w none = ⊥
  Written (some ms) w (some (err e, x, w')) = ⊥
  Written (some ms) w (some (ok v, x, w')) = Grows ms w w'

  Written-more :
      (ns : List Text) (ms : Option (List Text)) (w w₁ : W)
      (o : Option (Outcome (Unit {0}) × Writer × W))
      → Grows ns w w₁
      → Written ms w₁ o
      → Written (Option.map (λ ms'. ns ++ ms') ms) w o
  Written-more ns none w w₁ o g h = h
  Written-more ns (some ms) w w₁ none g h = h
  Written-more ns (some ms) w w₁ (some (err e, x, w')) g h = h
  Written-more ns (some ms) w w₁ (some (ok v, x, w')) g h = Grows-more ns ms w w₁ w' g h

  -- The world is another one, and the queue is the same.
  Written-from :
      (ms : Option (List Text)) (w w₁ : W) (o : Option (Outcome (Unit {0}) × Writer × W))
      → view w₁ ≡ view w
      → Written ms w₁ o
      → Written ms w o
  Written-from none w w₁ o e h = h
  Written-from (some ms) w w₁ none e h = h
  Written-from (some ms) w w₁ (some (err e', x, w')) e h = h
  Written-from (some ms) w w₁ (some (ok v, x, w')) e h =
      Grows-more [] ms w w₁ w' (Grows-same w w₁ e) h

  -- Enough turns for the lines, where one of them is `quit`.
  abbrev Enough : ℕ → List Text → Type 0
  Enough turns lines = messages lines ≢ none → length lines ≤ turns

  -- A message, and the lines behind it.
  after_message :
      (msg : Text) (turns : ℕ) (lines : List Text) (w : W) (o : Outcome (Unit {0}) × Writer × W)
      → Post (λ v x' w'. Named x' × Grows (msg ∷ []) w w') (λ e x' w'. ⊥) o
      → ((x' : Writer) (w' : W)
          → Named x'
          → Written (messages lines) w' (write_lines turns lines x' w'))
      → Written (Option.map (λ ms. msg ∷ ms) (messages lines)) w (
          let (r, x', w') = o in
          elim r [ ok v ↦ write_lines turns lines x' w' | err e ↦ some (err e, x', w') ])
  after_message msg turns lines w (err e, x', w') q next = absurd q
  after_message msg turns lines w (ok v, x', w') q next =
      Written-more (msg ∷ []) (messages lines) w w' (write_lines turns lines x' w') q.1
        (next x' w' q.0)

  empty-IsNoQuit : text_eqb [] (bytes "quit") ≡ false
  unfolding text_eqb bytes
  empty-IsNoQuit = refl

  write_lines-Written :
      (turns : ℕ) (lines : List Text) (x : Writer) (w : W)
      → Enough turns lines
      → Named x
      → Written (messages lines) w (write_lines turns lines x w)
  unfolding write_lines messages getline
  write_lines-Written zero [] x w enough n = refl
  write_lines-Written zero (line ∷ lines) x w enough n =
      elim (Option-cases (messages (line ∷ lines))) [
        | inl unending ↦ rw (unending, write_lines) refl
        | inr (ms, found) ↦ absurd (ground (arith, found, enough))
      ]
  write_lines-Written (suc turns) [] x w enough n =
      let w₁ = p.cout (bytes "enter message text (or \"quit\" to end): ") w in
      rw (empty-IsNoQuit, write_lines, getline)
        (write_lines-Written turns [] x w₁ (λ found. absurd (found refl)) n)
  write_lines-Written (suc turns) ([] ∷ lines) x w enough n =
      let w₁ = p.cout (bytes "enter message text (or \"quit\" to end): ") w in
      let same = keeps.prompted _ w in
      elim (Bool-cases (text_eqb [] (bytes "quit"))) [
        | inl quit ↦ rw (quit, write_lines, messages, getline) (Grows-same w w₁ same)
        | inr more ↦
            rw (more, write_lines, messages, getline)
              (Written-from (messages lines) w w₁ (write_lines turns lines x w₁) same (
                write_lines-Written turns lines x w₁ (λ found. ground (arith, enough, more, found))
                  n))
      ]
  write_lines-Written (suc turns) ((c ∷ cs) ∷ lines) x w enough n =
      let w₁ = p.cout (bytes "enter message text (or \"quit\" to end): ") w in
      let same = keeps.prompted _ w in
      elim (Bool-cases (text_eqb (c ∷ cs) (bytes "quit"))) [
        | inl quit ↦ rw (quit, write_lines, messages, getline) (Grows-same w w₁ same)
        | inr more ↦
            rw (more, write_lines, messages, getline)
              (Written-from (Option.map (λ ms. (c ∷ cs) ∷ ms) (messages lines)) w w₁ _ same (
                after_message (c ∷ cs) turns lines w₁ (write_message (c ∷ cs) x w₁)
                  (write_message-Post (c ∷ cs) x w₁ n)
                  (λ x' w' n'.
                    write_lines-Written turns lines x' w'
                      (λ found. ground (arith, enough, more, found)) n')))
      ]

  -- EXIT_SUCCESS, and the messages have been added for good; or the program does not end.
  abbrev pub Writes : Option (List Text) → W → Exit W → Type 0
  Writes none w o = o ≡ none
  Writes (some ms) w none = ⊥
  Writes (some ms) w (some (status, out, w')) =
      (status ≡ true)
      × ((view w').contents ≡ (view w).contents ++ map encode ms)
      × IsSettled (view w')

  write_ends-Writes :
      (ms : Option (List Text)) (w : W) (o : Option (Outcome (Unit {0}) × Writer × W))
      → IsSettled (view w)
      → Written ms w o
      → Writes ms w (Option.map write_ends o)
  unfolding write_ends destroy
  write_ends-Writes none w o settled h = rw h refl
  write_ends-Writes (some ms) w none settled h = h
  write_ends-Writes (some ms) w (some (err e, x, w')) settled h = absurd h
  write_ends-Writes (some ms) w (some (ok v, x, w')) settled h =
      let same = quiet.closed x.queue.tuxedo.catd w' in
      (refl, ap View.contents same ∙ h.0, rw same (h.1 settled))

  -- In a domain where the calls do what is documented and nothing fails, outside of a
  -- transaction: a run of qwriter whose input has no line that is `quit` does not end within any
  -- number of turns. With such a line it ends within as many turns as there are lines, has added
  -- the lines in front of the first one to the queue for good, each in its external form, in
  -- order and without the empty ones, and returns EXIT_SUCCESS.
  pub run-Writes :
      (turns : ℕ) (lines : List Text) (raw : Qctl) (c : AbstractClient) (w : W)
      → (messages lines ≢ none → length lines ≤ turns)
      → IsSettled (view w)
      → Writes (messages lines) w (run turns lines raw qspace queue c w)
  unfolding run
  run-Writes turns lines raw c w enough settled =
      let (r, q, w₁) = new_queue_instance (some qspace) (some queue) none raw c w in
      let (made, space, name, seen) = new_queue_instance-view quiet qspace queue raw c w in
      let x : Writer = record { client = c; queue = q } in
      rw (run, made)
        (write_ends-Writes (messages lines) w (write_lines turns lines x w₁) settled (
          Written-from (messages lines) w w₁ (write_lines turns lines x w₁) seen
            (write_lines-Written turns lines x w₁ enough (space, name))))
