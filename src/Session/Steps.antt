-- ===== src/Session/Steps.antt =====
-- What each call of a program is as a step of a list with transactions.
use cpp_atmi.Prelude.{
  ℕ, ◌≡◌, refl, ap, ◌∙◌, ◌⊎◌, inl, inr, false, List, [], ◌∷◌, ◌++◌, Option, none, some, arith,
}
use cpp_atmi.Prelude.Int.{ℤ, is_neg}
use cpp_atmi.Atmi.Codes.{Constants}
use cpp_atmi.Atmi.Texts.{Text, Texts}
use cpp_atmi.Atmi.Calls.{Atmi, Queueing, Ptr}
use cpp_atmi.Method.{Post, Post-mono}
use cpp_atmi.Queue.{Receiver}
use cpp_atmi.QueueStream.Server.{View, IsServer, kept}
use cpp_atmi.Session.{Command, begins, commits, aborts, takes, puts, perform}
use cpp_atmi.Session.Views.{
  Names, Removes, begins-View, commits-View, aborts-View, puts-View, takes-View,
}
use cpp_atmi.Session.Fifo.{
  Fifo, fifo, Label, begun, committed, aborted, none_left, added, removed, Step, beginning,
  committing, aborting, adding, removing, finding_none, Represents, IsSaved,
}

same-IsSaved :
    (ms : List Text) (old : Option (List Text)) (v v' : View)
    → v' ≡ v
    → IsSaved (fifo ms old) v
    → IsSaved (fifo ms old) v'
same-IsSaved ms none v v' e h = rw e h
same-IsSaved ms (some old) v v' e h = rw e h

-- What is there for good after a message was added or taken.
kept-IsSaved :
    (ms ms' : List Text) (old : Option (List Text)) (v v' : View)
    → IsSaved (fifo ms old) v
    → v'.contents ≡ ms'
    → v'.saved ≡ kept v v'.contents
    → v'.pending ≡ v.pending
    → IsSaved (fifo ms' old) v'
kept-IsSaved ms ms' none v v' h c s p = ground (arith, h, c, s, p)
kept-IsSaved ms ms' (some old) v v' h c s p = ground (arith, h, c, s, p)

module _ {W : Type 0} ⦃a : Atmi W⦄ ⦃t : Texts⦄ ⦃k : Constants⦄ ⦃s : Queueing W⦄
    {qspace queue : Text} {flags : ℕ} {view : W → View} {form : W → Ptr → ℕ → Text}
    (law : IsServer qspace queue flags view form) where
  -- The step that a call is: the message is the one in the buffer.
  abbrev pub Means : Command → W → ℤ → Receiver → W → Label → Type 0
  Means (begins timeout) w rc r' w' l = l ≡ begun
  Means commits w rc r' w' l = l ≡ committed
  Means aborts w rc r' w' l = l ≡ aborted
  Means (puts buf len) w rc r' w' l = l ≡ added (form w buf len)
  Means takes w rc r' w' l =
      ((is_neg rc ≡ false) × (l ≡ removed (form w' r'.buf r'.len)))
      ⊎ ((rc ≡ k.qmenomsg_value) × (l ≡ none_left))

  abbrev pub Takes : Command → Fifo → W → ℤ → Receiver → W → Type 0
  Takes c q w rc r' w' =
      (l : Label) × (q' : Fifo) × Step q l q'
      × Means c w rc r' w' l
      × Represents q' (view w')
      × Names law r'

  -- A message that was not put or taken is where it was.
  abbrev pub Leaves : Command → Fifo → W → Type 0
  Leaves (puts buf len) q w = Represents q (view w)
  Leaves takes q w = Represents q (view w)
  Leaves _ q w = Unit {0}

  abbrev pub Ends : Command → Fifo → Receiver → W → Type 0
  Ends c q r w = Post (λ rc r' w'. Takes c q w rc r' w') (λ e r' w'. Leaves c q w') (perform c r w)

  begins-Ends :
      (timeout : ℤ) (ms : List Text) (saved : Option (List Text)) (r : Receiver) (w : W)
      → Names law r
      → Represents (fifo ms saved) (view w)
      → Ends (begins timeout) (fifo ms saved) r w
  begins-Ends timeout ms none r w n h =
      Post-mono (perform (begins timeout) r w)
        (λ rc r' w' v.
          (begun, fifo ms (some ms), beginning ms, refl, (v.2 ∙ h.0, (v.4, v.3 ∙ h.0)), v.0))
        (λ e r' w' u. u) (begins-View law timeout r w n)
  begins-Ends timeout ms (some old) r w n h =
      Post-mono (perform (begins timeout) r w) (λ rc r' w' v. absurd (ground (arith, v.1, h.1.0)))
        (λ e r' w' u. u) (begins-View law timeout r w n)

  commits-Ends :
      (ms : List Text) (saved : Option (List Text)) (r : Receiver) (w : W)
      → Names law r
      → Represents (fifo ms saved) (view w)
      → Ends commits (fifo ms saved) r w
  commits-Ends ms none r w n h =
      Post-mono (perform commits r w) (λ rc r' w' v. absurd (ground (arith, v.1, h.1.0)))
        (λ e r' w' u. u) (commits-View law r w n)
  commits-Ends ms (some old) r w n h =
      Post-mono (perform commits r w)
        (λ rc r' w' v. (
          committed,
          fifo ms none,
          committing ms old,
          refl,
          (v.2 ∙ h.0, (v.3.0, v.3.1 ∙ v.2 ∙ h.0)),
          v.0,
        ))
        (λ e r' w' u. u) (commits-View law r w n)

  aborts-Ends :
      (ms : List Text) (saved : Option (List Text)) (r : Receiver) (w : W)
      → Names law r
      → Represents (fifo ms saved) (view w)
      → Ends aborts (fifo ms saved) r w
  aborts-Ends ms none r w n h =
      Post-mono (perform aborts r w) (λ rc r' w' v. absurd (ground (arith, v.1, h.1.0)))
        (λ e r' w' u. u) (aborts-View law r w n)
  aborts-Ends ms (some old) r w n h =
      Post-mono (perform aborts r w)
        (λ rc r' w' v. (
          aborted,
          fifo old none,
          aborting ms old,
          refl,
          (v.2 ∙ h.1.1, (v.3.0, v.3.1 ∙ v.2 ∙ h.1.1)),
          v.0,
        ))
        (λ e r' w' u. u) (aborts-View law r w n)

  puts-Ends :
      (buf : Ptr) (len : ℕ) (q : Fifo) (r : Receiver) (w : W)
      → Names law r
      → Represents q (view w)
      → Ends (puts buf len) q r w
  puts-Ends buf len q r w n h =
      let m = form w buf len in
      Post-mono (perform (puts buf len) r w)
        (λ rc r' w' v.
          let now = v.1.0 ∙ ap (λ (ms : List Text). ms ++ m ∷ []) h.0 in
          (
            added m,
            fifo (q.contents ++ m ∷ []) q.saved,
            adding q.contents q.saved m,
            refl,
            (
              now,
              kept-IsSaved q.contents (q.contents ++ m ∷ []) q.saved (view w) (view w') h.1 now
                  v.1.1 v.1.2,
            ),
            v.0,
          ))
        (λ e r' w' u. rw u h) (puts-View law buf len r w n)

  -- The two results of `dequeue`.
  Removes-Takes :
      (ms : List Text) (old : Option (List Text)) (rc : ℤ) (r' : Receiver) (w w' : W)
      → Names law r'
      → Represents (fifo ms old) (view w)
      → Removes law rc (form w' r'.buf r'.len) (view w) (view w')
      → Takes takes (fifo ms old) w rc r' w'
  Removes-Takes [] old rc r' w w' n h (inl found) = absurd (ground (arith, found, h.0))
  Removes-Takes [] old rc r' w w' n h (inr nothing) = (
    none_left,
    fifo [] old,
    finding_none old,
    inr (nothing.0, refl),
    (ap View.contents nothing.2 ∙ h.0, same-IsSaved [] old (view w) (view w') nothing.2 h.1),
    n,
  )
  Removes-Takes (m ∷ ms) old rc r' w w' n h (inr nothing) = absurd (ground (arith, nothing.1, h.0))
  Removes-Takes (m ∷ ms) old rc r' w w' n h (inl found) =
      let now : (view w').contents ≡ ms = ground (arith, found.1, h.0) in
      (
        removed m,
        fifo ms old,
        removing ms old m,
        inl (found.0, ground (arith, found.1, h.0)),
        (now, kept-IsSaved (m ∷ ms) ms old (view w) (view w') h.1 now found.2 found.3),
        n,
      )

  takes-Ends :
      (q : Fifo) (r : Receiver) (w : W) → Names law r → Represents q (view w) → Ends takes q r w
  takes-Ends q r w n h =
      Post-mono (perform takes r w)
        (λ rc r' w' v. Removes-Takes q.contents q.saved rc r' w w' v.0 h v.1) (λ e r' w' u. rw u h)
        (takes-View law r w n)

  pub perform-Ends :
      (c : Command) (q : Fifo) (r : Receiver) (w : W)
      → Names law r
      → Represents q (view w)
      → Ends c q r w
  perform-Ends (begins timeout) q r w n h = begins-Ends timeout q.contents q.saved r w n h
  perform-Ends commits q r w n h = commits-Ends q.contents q.saved r w n h
  perform-Ends aborts q r w n h = aborts-Ends q.contents q.saved r w n h
  perform-Ends takes q r w n h = takes-Ends q r w n h
  perform-Ends (puts buf len) q r w n h = puts-Ends buf len q r w n h
