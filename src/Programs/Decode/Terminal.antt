-- ===== src/Programs/Decode/Terminal.antt =====
-- What the lines of an exported file are to decode, and the calls that show them.
use cpp_atmi.Prelude.{
  ℕ, ◌≡◌, ◌≢◌, Bool, true, false, Option, none, some, List, [], ◌∷◌, ◌++◌, if◌then◌else◌,
}
use cpp_atmi.Prelude.Int.{is_neg}
use cpp_atmi.Prelude.Lists.{length}
use cpp_atmi.Atmi.Codes.{Constants}
use cpp_atmi.Atmi.Texts.{Text, bytes, c_str}
use cpp_atmi.Atmi.Calls.{Atmi, Queueing, Ptr, Reply}
use cpp_atmi.Atmi.Fml.{Fml}
use cpp_atmi.Options.{Process}
use cpp_atmi.Programs.Decode.{Strings, is_type}

-- A message: its type, and how it is printed.
abbrev pub Content : Type 0
Content = Text × Text

-- Whether all lines are messages.
unfoldable pub are_messages : (Text → Option Content) → List Text → Bool
are_messages message [] = true
are_messages message (line ∷ lines) = elim (message line) [
  | none ↦ false
  | some m ↦ are_messages message lines
]

module _ ⦃k : Constants⦄ where
  -- What is printed of a message.
  unfoldable pub shown_message : Content → Text
  unfolding is_type
  shown_message (type, text) =
      if is_type type (bytes "STRING")
      then text ++ 10 ∷ []
      else if is_type type (bytes "FML")
      then text
      else []

  -- What is printed of some lines, up to the first one that is not a message.
  unfoldable pub shown_lines : (Text → Option Content) → List Text → Text
  unfolding shown_message
  shown_lines message [] = []
  shown_lines message (line ∷ lines) = elim (message line) [
    | none ↦ []
    | some m ↦ shown_message m ++ shown_lines message lines
  ]

module _ {W : Type 0} ⦃a : Atmi W⦄ ⦃f : Fml W⦄ ⦃k : Constants⦄ ⦃s : Queueing W⦄ ⦃p : Process W⦄
    ⦃m : Strings W⦄ where
  -- `message` is the message that a line is the external form of, if it is one.
  abbrev pub Imports : (W → Text) → Option Content → W → Reply W → Type 0
  Imports shown none w r = (is_neg r.rc ≡ true) × (shown r.world ≡ shown w)
  Imports shown (some (type, text)) w r =
      let (rc, name, w') = a.tptypes r.buf r.world in
      (is_neg r.rc ≡ false)
      × (c_str name ≡ type)
      × (shown w' ≡ shown w)
      × (is_type type (bytes "STRING") ≡ true → m.string_at r.buf w' ≡ text)
      × (is_type type (bytes "FML") ≡ true → shown (f.fprint32 r.buf w') ≡ shown w' ++ text)

  -- The calls do what is documented, and nothing but output reaches the terminal, whose text is
  -- `shown`.
  pub record IsTerminal (shown : W → Text) (message : Text → Option Content) : Type 0 where
    pub imported :
        (line : Text) (buf : Ptr) (w : W)
        → Imports shown (message line) w (s.tpimport line (length line) buf 0 k.tpex_string w)
    pub written : (text : Text) (w : W) → shown (p.cout text w) ≡ shown w ++ text
    pub said : (text : Text) (w : W) → shown (p.cerr text w) ≡ shown w
    pub freed : (buf : ℕ) (w : W) → shown (a.tpfree buf w) ≡ shown w
    pub allotted :
        (type : Text) (sub : Option Text) (n : ℕ) (w : W)
        → (let (buf, w') = a.tpalloc type sub n w in (buf ≢ none) × (shown w' ≡ shown w))
