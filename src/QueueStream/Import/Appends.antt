-- ===== src/QueueStream/Import/Appends.antt =====
-- An import that returns has added every line of the stream to the queue, in order.
use mathlib.Core.List.{append_assoc, append-nil}
use cpp_atmi.Prelude.{ℕ, ◌+◌, ◌≡◌, refl, List, [], ◌∷◌, ◌++◌, none, some, arith, sym, ap, ◌∙◌}
use cpp_atmi.Prelude.Int.{pos}
use cpp_atmi.Prelude.Lists.{length}
use cpp_atmi.Atmi.Codes.{Constants}
use cpp_atmi.Atmi.Texts.{Text, Texts, bytes}
use cpp_atmi.Atmi.Calls.{Atmi, Queueing, Ptr}
use cpp_atmi.Exceptions.{Exception, is_tuxedo, is_diagnostic}
use cpp_atmi.Method.{Outcome, Post, >>=-Post, Post-mono, try_catch, try_catch-Post, ◌>>◌}
use cpp_atmi.Tuxedo.{Tuxedo, begin, free}
use cpp_atmi.Tuxedo.Reports.{memory-Reports}
use cpp_atmi.Queue.{Queue}
use cpp_atmi.Queue.Transfer.{enqueue}
use cpp_atmi.QueueStream.{QueueStream}
use cpp_atmi.QueueStream.Server.{View, IsServer, IsSettled}
use cpp_atmi.QueueStream.Import.{
  Importer, on_queue, on_base, get_lines, put_message, roll_back, import_line, import_lines,
  give_up, prepare, free_message, import,
}
use cpp_atmi.QueueStream.Import.Sends.{Names, begin-Post, commit-Post, enqueue-Post}

module _ {W : Type 0} ⦃a : Atmi W⦄ ⦃t : Texts⦄ ⦃k : Constants⦄ ⦃s : Queueing W⦄
    {qspace queue : Text} {flags : ℕ} {view : W → View} {form : W → Ptr → ℕ → Text}
    (law : IsServer qspace queue flags view form) where
  -- The lines `ls` have been added and counted.
  pub record Appends (ls : List Text) (x : Importer) (w : W) (x' : Importer) (w' : W) : Type 0 where
    pub names : Names law x'
    pub contents : (view w').contents ≡ (view w).contents ++ ls
    pub count : x'.stream.count ≡ x.stream.count + length ls
    pub settled : IsSettled (view w) → IsSettled (view w')

  abbrev pub Any : Exception → Importer → W → Type 0
  Any e x w = Unit {0}

  put_message-Post :
      (x : Importer) (w : W)
      → Names law x
      → Post (λ v x' w'. Appends (form w x.buf x.len ∷ []) x w x' w') Any (put_message x w)
  unfolding put_message
  put_message-Post x w n =
      let (r₁, x₁, w₁) = on_base (begin (pos 0)) x w in
      let (r₂, x₂, w₂) = on_queue (enqueue x₁.buf x₁.len) x₁ w₁ in
      ground (arith, begin-Post law x w, enqueue-Post law x₁ w₁, commit-Post law x₂ w₂)

  -- The handlers never return.
  roll_back-throws :
      (e : Exception) (x : Importer) (w : W) → Post (λ v x' w'. ⊥) Any (roll_back e x w)
  unfolding roll_back is_tuxedo is_diagnostic
  roll_back-throws e x w = ground arith

  put_back-Post :
      (x : Importer) (w : W)
      → Names law x
      → Post
          (λ v x' w'. Appends (form w x.buf x.len ∷ []) x w x' w')
          Any
          (try_catch put_message roll_back x w)
  put_back-Post x w n =
      try_catch-Post (λ v x' w'. Appends (form w x.buf x.len ∷ []) x w x' w') Any Any put_message
        roll_back x w (put_message-Post x w n)
        (λ e x' w' u.
          Post-mono (roll_back e x' w') (λ v x'' w'' no. absurd no) (λ e' x'' w'' h. h)
            (roll_back-throws e x' w'))

  pub import_line-Post :
      (line : Text) (x : Importer) (w : W)
      → Names law x
      → Post (λ v x' w'. Appends (line ∷ []) x w x' w') Any (import_line line x w)
  unfolding import_line
  import_line-Post line x w n =
      let r = s.tpimport line (length line) x.buf x.len x.stream.flags w in
      let x₁ : Importer = record x { buf = r.buf; len = r.len } in
      ground (arith, law.imported line x.buf x.len w, put_back-Post x₁ r.world)

  import_lines-Post :
      (ls : List Text) (x : Importer) (w : W)
      → Names law x
      → Post (λ v x' w'. Appends ls x w x' w') Any (import_lines ls x w)
  unfolding import_lines
  import_lines-Post [] x w n = record {
    names = n;
    contents = sym (append-nil (view w).contents);
    count = omega arith;
    settled = λ h. h;
  }
  import_lines-Post (l ∷ ls) x w n =
      >>=-Post (λ v x' w'. Appends (l ∷ []) x w x' w') _ Any (import_line l) (λ _. import_lines ls)
        x w (import_line-Post l x w n)
        (λ v x₁ w₁ one.
          Post-mono (import_lines ls x₁ w₁)
            (λ v' x' w' more. record {
              names = more.names;
              contents =
                  more.contents
                  ∙ ap (λ c. c ++ ls) one.contents
                  ∙ append_assoc (view w).contents (l ∷ []) ls;
              count = ground (arith, one.count, more.count);
              settled = λ h. more.settled (one.settled h);
            })
            (λ e x' w' h. h) (import_lines-Post ls x₁ w₁ one.names))

  pub prepare-Post :
      (x : Importer) (w : W)
      → Names law x
      → Post
          (λ v x' w'. Names law x' × (view w' ≡ view w) × (x'.stream.count ≡ 0))
          Any
          (prepare x w)
  unfolding prepare
  prepare-Post x w n = ground (
    arith,
    (memory-Reports x.stream.tuxedo w (bytes "CARRAY") none none x.len).0,
    law.allocated (bytes "CARRAY") none x.len w,
  )

  free-Post :
      (p : Ptr) (c : Tuxedo) (w : W)
      → Post {A = Unit {0}} (λ v c' w'. (c' ≡ c) × (view w' ≡ view w)) (λ e c' w'. ⊥) (free p c w)
  unfolding free
  free-Post none c w = (refl, refl)
  free-Post (some p) c w = (refl, law.freed p w)

  free_message-Post :
      (x : Importer) (w : W)
      → Post
          (λ v x' w'. (x'.stream.count ≡ x.stream.count) × (view w' ≡ view w))
          Any
          (free_message x w)
  unfolding free_message
  free_message-Post x w = ground (arith, free-Post x.buf x.stream.tuxedo w)

  give_up-throws : (e : Exception) (x : Importer) (w : W) → Post (λ v x' w'. ⊥) Any (give_up e x w)
  unfolding give_up is_tuxedo free_message free
  give_up-throws e x w = ground arith

  -- The lines have been added for good, and are counted.
  abbrev pub Added : List Text → W → Importer → W → Type 0
  Added ls w x' w' =
      ((view w').contents ≡ (view w).contents ++ ls)
      × (x'.stream.count ≡ length ls)
      × (IsSettled (view w) → IsSettled (view w'))

  imports :
      (ls : List Text) (x : Importer) (w : W)
      → Names law x
      → Post (λ v x' w'. Added ls w x' w') Any ((prepare >> import_lines ls >> free_message) x w)
  imports ls x w n =
      let (r, x₁, w₁) = prepare x w in
      let (r₂, x₂, w₂) = import_lines ls x₁ w₁ in
      ground (arith, prepare-Post x w n, import_lines-Post ls x₁ w₁, free_message-Post x₂ w₂)

  -- The stream's text is imported: every line of it is a message at the end of the queue.
  abbrev pub Imports : List Text → W → Outcome (Unit {0}) × Importer × W → Type 0
  Imports ls w o = Post (λ v x' w'. Added ls w x' w') Any o

  -- If the calls do what is documented, an import that returns has added the lines of the text
  -- to the queue as messages, in order and behind those that were there, and has counted them.
  -- If no transaction was in progress before, none is after, and they are there for good.
  pub import-Imports :
      (text : Text) (qs : QueueStream) (q : Queue) (w : W)
      → q.qspace ≡ some qspace
      → q.name ≡ some queue
      → qs.flags ≡ flags
      → Imports (get_lines text) w (import text qs q w)
  unfolding import
  import-Imports text qs q w a₁ a₂ a₃ =
      let x₀ : Importer = record { stream = qs; queue = q; buf = none; len = qs.buffer_size } in
      let ls = get_lines text in
      try_catch-Post (λ v x' w'. Added ls w x' w') Any Any
        (prepare >> import_lines ls >> free_message) give_up x₀ w (imports ls x₀ w (a₁, a₂, a₃))
        (λ e x' w' u.
          Post-mono (give_up e x' w') (λ v x'' w'' no. absurd no) (λ e' x'' w'' h. h)
            (give_up-throws e x' w'))
