-- ===== src/Programs/Decode/Runs.antt =====
-- What a run of decode prints.
use mathlib.Core.List.{append-nil, append_assoc}
use cpp_atmi.Prelude.{
  ℕ, ◌≡◌, refl, Bool, true, false, Option, none, some, List, [], ◌∷◌, ◌++◌, arith, Bool-cases,
  Option-cases, inl, inr, ◌∙◌, ap, sym,
}
use cpp_atmi.Prelude.Lists.{length}
use cpp_atmi.Atmi.Codes.{Constants}
use cpp_atmi.Atmi.Texts.{Text, Texts, bytes}
use cpp_atmi.Atmi.Calls.{Atmi, Queueing, Ptr}
use cpp_atmi.Atmi.Fml.{Fml}
use cpp_atmi.Method.{assign, ◌>>=◌, ◌>>◌, Outcome, ok, err}
use cpp_atmi.Tuxedo.{Tuxedo, allocate, free}
use cpp_atmi.Tuxedo.Reports.{memory-Reports}
use cpp_atmi.QueueStream.Import.{get_lines}
use cpp_atmi.Client.{AbstractClient}
use cpp_atmi.Options.{Process}
use cpp_atmi.Programs.{report}
use cpp_atmi.Programs.Decode.Terminal.{
  Content, IsTerminal, Imports, shown_message, shown_lines, are_messages,
}
use cpp_atmi.Programs.Decode.{
  on_client, Decoder, Strings, is_type, call_tpimport, get_type, print_message, decode_line,
  decode_lines, free_message, decode, decode_ends, run,
}

module _ {W : Type 0} ⦃a : Atmi W⦄ ⦃t : Texts⦄ ⦃f : Fml W⦄ ⦃k : Constants⦄ ⦃s : Queueing W⦄
    ⦃p : Process W⦄ ⦃m : Strings W⦄ {shown : W → Text} {message : Text → Option Content}
    (law : IsTerminal shown message) where
  -- The lines so far have printed `text`, and have all been messages or not.
  abbrev Shows : Bool → Text → W → Outcome (Unit {0}) × Decoder × W → Type 0
  Shows good text w (ok v, x, w') = (good ≡ true) × (shown w' ≡ shown w ++ text)
  Shows good text w (err e, x, w') = (good ≡ false) × (shown w' ≡ shown w ++ text)

  abbrev LineShows : Option Content → W → Outcome (Unit {0}) × Decoder × W → Type 0
  LineShows none w o = Shows false [] w o
  LineShows (some c) w o = Shows true (shown_message c) w o

  Shows-from :
      (good : Bool) (before after : Text) (w w₁ : W) (o : Outcome (Unit {0}) × Decoder × W)
      → shown w₁ ≡ shown w ++ before
      → Shows good after w₁ o
      → Shows good (before ++ after) w o
  Shows-from good before after w w₁ (ok v, x, w') e h =
      (h.0, h.1 ∙ ap (λ s. s ++ after) e ∙ append_assoc (shown w) before after)
  Shows-from good before after w w₁ (err v, x, w') e h =
      (h.0, h.1 ∙ ap (λ s. s ++ after) e ∙ append_assoc (shown w) before after)

  Shows-at :
      (good : Bool) (text : Text) (w w₁ : W) (o : Outcome (Unit {0}) × Decoder × W)
      → shown w₁ ≡ shown w
      → Shows good text w₁ o
      → Shows good text w o
  Shows-at good text w w₁ (ok v, x, w') e h = (h.0, h.1 ∙ ap (λ s. s ++ text) e)
  Shows-at good text w w₁ (err v, x, w') e h = (h.0, h.1 ∙ ap (λ s. s ++ text) e)

  free_message-shown :
      (x : Decoder) (w : W)
      → let (r, x', w') = free_message x w in (r ≡ ok tt) × (shown w' ≡ shown w)
  unfolding free_message free
  free_message-shown x w = elim (Option-cases x.message) [
    | inl e ↦ rw (free_message, e, free) (refl, refl)
    | inr (buf, e) ↦ rw (free_message, e, free) (refl, law.freed buf w)
  ]

  print_message-Shows :
      (type text : Text) (x : Decoder) (w : W)
      → (is_type type (bytes "STRING") ≡ true → m.string_at x.message w ≡ text)
      → (is_type type (bytes "FML") ≡ true → shown (f.fprint32 x.message w) ≡ shown w ++ text)
      → Shows true (shown_message (type, text)) w (print_message type x w)
  unfolding print_message shown_message
  print_message-Shows type text x w held printed =
      elim (Bool-cases (is_type type (bytes "STRING"))) [
        | inl e ↦
            rw (e, print_message, shown_message, held e) (refl, law.written (text ++ 10 ∷ []) w)
        | inr e ↦ elim (Bool-cases (is_type type (bytes "FML"))) [
          | inl e' ↦ rw (e, e', print_message, shown_message) (refl, printed e')
          | inr e' ↦
              rw (e, e', print_message, shown_message)
                (refl, law.said _ w ∙ sym (append-nil (shown w)))
        ]
      ]

  decode_line-Shows :
      (line : Text) (x : Decoder) (w : W) → LineShows (message line) w (decode_line line x w)
  unfolding decode_line call_tpimport get_type
  decode_line-Shows line x w = go (message line) (law.imported line x.message w)
    where
      go :
          (c : Option Content)
          → Imports shown c w (s.tpimport line (length line) x.message 0 k.tpex_string w)
          → LineShows c w (decode_line line x w)
      go none h = rw (decode_line, call_tpimport, h.0) (refl, h.1 ∙ sym (append-nil (shown w)))
      go (some (type, text)) (valid, named, same, held, printed) =
          let r = s.tpimport line (length line) x.message 0 k.tpex_string w in
          let (rc, name, w₂) = a.tptypes r.buf r.world in
          rw (decode_line, call_tpimport, valid, get_type, named)
            (Shows-at true (shown_message (type, text)) w w₂
              (print_message type (record x { message = r.buf }) w₂) same
              (print_message-Shows type text (record x { message = r.buf }) w₂ held printed))

  lines-Shows :
      (lines : List Text)
      → ((x : Decoder) (w : W)
          → Shows
              (are_messages message lines)
              (shown_lines message lines)
              w
              (decode_lines lines x w))
      → (c : Option Content) (w : W) (o : Outcome (Unit {0}) × Decoder × W) → LineShows c w o
      → Shows
          (elim c [ none ↦ false | some m ↦ are_messages message lines ])
          (elim c [ none ↦ [] | some m ↦ shown_message m ++ shown_lines message lines ])
          w
          (let (r, x', w') = o in
            elim r [ ok v ↦ decode_lines lines x' w' | err e ↦ (err e, x', w') ])
  lines-Shows lines next none w (ok v, x, w') h = ground (arith, h)
  lines-Shows lines next none w (err e, x, w') h = h
  lines-Shows lines next (some c) w (ok v, x, w') h =
      Shows-from (are_messages message lines) (shown_message c) (shown_lines message lines) w w'
        (decode_lines lines x w') h.1 (next x w')
  lines-Shows lines next (some c) w (err e, x, w') h = ground (arith, h)

  decode_lines-Shows :
      (lines : List Text) (x : Decoder) (w : W)
      → Shows (are_messages message lines) (shown_lines message lines) w (decode_lines lines x w)
  unfolding decode_lines are_messages shown_lines
  decode_lines-Shows [] x w = (refl, sym (append-nil (shown w)))
  decode_lines-Shows (line ∷ lines) x w =
      lines-Shows lines (λ x' w'. decode_lines-Shows lines x' w') (message line) w
        (decode_line line x w) (decode_line-Shows line x w)

  decode_ends-Shows :
      (good : Bool) (text : Text) (w : W) (o : Outcome (Unit {0}) × Decoder × W)
      → Shows good text w o
      → let (status, c', w') = decode_ends o in (status ≡ good) × (shown w' ≡ shown w ++ text)
  unfolding decode_ends report
  decode_ends-Shows good text w (ok v, x, w') h = (sym h.0, h.1)
  decode_ends-Shows good text w (err e, x, w') h =
      (sym h.0, law.said _ _ ∙ (free_message-shown x w').1 ∙ h.1)

  Shows-freed :
      (good : Bool) (text : Text) (w : W) (o : Outcome (Unit {0}) × Decoder × W)
      → Shows good text w o
      → Shows good text w
          (let (r, x', w') = o in elim r [ ok v ↦ free_message x' w' | err e ↦ (err e, x', w') ])
  Shows-freed good text w (ok v, x, w') h =
      let (returned, same) = free_message-shown x w' in rw returned (h.0, same ∙ h.1)
  Shows-freed good text w (err e, x, w') h = h

  -- The memory is there, and nothing was printed for it.
  abbrev Allocates : W → Outcome Ptr × Tuxedo × W → Type 0
  Allocates w (ok buf, c, w') = shown w' ≡ shown w
  Allocates w (err e, c, w') = ⊥

  allocate-Allocates :
      (n : ℕ) (c : Tuxedo) (w : W) → Allocates w (allocate (bytes "CARRAY") none n c w)
  allocate-Allocates n c w = ground (
    arith,
    (memory-Reports c w (bytes "CARRAY") none none n).0,
    law.allotted (bytes "CARRAY") none n w,
  )

  lines_then_free-Shows :
      (lines : List Text) (x : Decoder) (w : W) (o : Outcome Ptr × Tuxedo × W)
      → Allocates w o
      → Shows (are_messages message lines) (shown_lines message lines) w (
          (on_client (λ c' w'. o) >>= λ buf.
          assign (λ x. record x { message = buf }) >> (decode_lines lines >> free_message))
            x w)
  lines_then_free-Shows lines x w (ok buf, c, w₁) same =
      let x₁ : Decoder = record { client = record x.client { tuxedo = c }; message = buf } in
      Shows-freed (are_messages message lines) (shown_lines message lines) w
        (decode_lines lines x₁ w₁)
        (Shows-at (are_messages message lines) (shown_lines message lines) w w₁
          (decode_lines lines x₁ w₁) same (decode_lines-Shows lines x₁ w₁))
  lines_then_free-Shows lines x w (err e, c, w₁) same = absurd same

  decode-Shows :
      (buffer_size : ℕ) (text : Text) (x : Decoder) (w : W)
      → Shows
          (are_messages message (get_lines text))
          (shown_lines message (get_lines text))
          w
          (decode buffer_size text x w)
  unfolding decode
  decode-Shows buffer_size text x w =
      lines_then_free-Shows (get_lines text) x w
        (allocate (bytes "CARRAY") none buffer_size x.client.tuxedo w)
        (allocate-Allocates buffer_size x.client.tuxedo w)

  pub run-Shows :
      (buffer_size : ℕ) (text : Text) (c : AbstractClient) (w : W)
      → let (status, c', w') = run buffer_size text c w in
        (status ≡ are_messages message (get_lines text))
        × (shown w' ≡ shown w ++ shown_lines message (get_lines text))
  unfolding run
  run-Shows buffer_size text c w =
      let x : Decoder = record { client = c; message = none } in
      decode_ends-Shows (are_messages message (get_lines text))
        (shown_lines message (get_lines text)) w (decode buffer_size text x w)
        (decode-Shows buffer_size text x w)
