-- ===== src/Field/RoundTrip.antt =====
-- A value that was added to a buffer is read back.
use cpp_atmi.Prelude.{◌≡◌, inl, inr, List, [], ◌∷◌, ◌++◌, arith, Bool-cases, ap, ltb}
use cpp_atmi.Prelude.Int.{ℤ, pos, minus_one, eqb_iff}
use cpp_atmi.Prelude.Lists.{length, length-append}
use cpp_atmi.Atmi.Codes.{Constants}
use cpp_atmi.Atmi.Texts.{Text, Texts, IsPlain}
use cpp_atmi.Atmi.Calls.{Atmi, Ptr}
use cpp_atmi.Atmi.Fml.{Fml}
use cpp_atmi.Exceptions.{Exception}
use cpp_atmi.Method.{Outcome, ok, err, Post, >>=-Post, Post-mono, try_catch}
use cpp_atmi.Buffer.{Buffer, occurences}
use cpp_atmi.Field.Store.{IsStore, IsString, IsWhole, get_elem?-last, append-drop}
use cpp_atmi.Field.{
  Field, Site, set_field_occurence, find_occurence, put_value, add_string, make_room, no_estimate,
  add, get, get_string, take_string,
}

-- A field whose value is `buff`.
abbrev pub blank : Text → Site → Site
blank buff x = record x { field = record x.field { value = buff } }

-- A `get` returns, with the value `v`.
abbrev pub Reads : {W : Type 0} → Text → Outcome ℤ × Site × W → Type 0
Reads v (ok rc, x, w) = x.field.value ≡ v
Reads v (err e, x, w) = ⊥

module _ {W : Type 0} ⦃a : Atmi W⦄ ⦃t : Texts⦄ ⦃f : Fml W⦄ ⦃k : Constants⦄
    {values : W → Ptr → ℤ → List Text} (law : IsStore values) where
  abbrev pub Any : Exception → Site → W → Type 0
  Any e x w = Unit {0}

  -- The field is at the occurence behind `vs`, the last one, which has the value `v`.
  abbrev pub IsLastAdded : Text → List Text → Site → W → Type 0
  IsLastAdded v vs x w =
      (x.field.occurence ≡ pos (length vs)) × (values w x.buffer.buffer x.field.id ≡ vs ++ v ∷ [])

  occurences-Post :
      (id : ℤ) (name : Text) (b : Buffer) (w : W)
      → Post
          (λ n b' w'.
            (n ≡ pos (length (values w b.buffer id)))
            × (b' ≡ b)
            × (values w' b.buffer id ≡ values w b.buffer id))
          (λ e b' w'. Unit {0})
          (occurences id name b w)
  unfolding occurences
  occurences-Post id name b w = ground (arith, law.counted b.buffer id w)

  pub find_occurence-Post :
      (v : Text) (vs : List Text) (x : Site) (w : W)
      → values w x.buffer.buffer x.field.id ≡ vs ++ v ∷ []
      → Post
          (λ u x' w'. IsLastAdded v vs x' w' × (x'.field.id ≡ x.field.id))
          Any
          (find_occurence x w)
  unfolding find_occurence set_field_occurence
  find_occurence-Post v vs x w h =
      let (r, b, w₁) = occurences x.field.id x.field.name x.buffer w in
      ground (
        arith,
        occurences-Post x.field.id x.field.name x.buffer w,
        occurences-Post x.field.id x.field.name b w₁,
        ap length h,
        length-append vs (v ∷ []),
      )

  make_room-Post :
      (x : Site) (w : W)
      → Post
          (λ u x' w'. x'.field ≡ x.field)
          Any
          (try_catch (make_room (length x.field.value)) no_estimate x w)
  unfolding make_room no_estimate
  make_room-Post x w = ground arith

  put_value-Post :
      (x : Site) (w : W)
      → IsWhole (f.fldtype32 x.field.id) x.field.value
      → Post
          (λ rc x' w'.
            (vs : List Text) × IsLastAdded x.field.value vs x' w' × (x'.field.id ≡ x.field.id))
          Any
          (put_value x w)
  unfolding put_value
  put_value-Post x w whole =
      let vs = values w x.buffer.buffer x.field.id in
      let (rc, w₁) = f.fadd32 x.buffer.buffer x.field.id x.field.value (length x.field.value) w in
      Post-mono {P = λ rc' x' w'. IsLastAdded x.field.value vs x' w' × (x'.field.id ≡ x.field.id)}
        (put_value x w) (λ rc' x' w' l. (vs, l.0, l.1)) (λ e x' w' u. u)
        (ground (
          arith,
          law.added x.buffer.buffer x.field.id x.field.value w whole,
          find_occurence-Post x.field.value vs x w₁,
        ))

  -- An `add` that returns.
  abbrev Added : Field → Outcome ℤ × Site × W → Type 0
  Added d o =
      Post (λ rc x' w'. (vs : List Text) × IsLastAdded d.value vs x' w' × (x'.field.id ≡ d.id)) Any
        o

  add-Added :
      (x : Site) (w : W) → IsWhole (f.fldtype32 x.field.id) x.field.value → Added x.field (add x w)
  unfolding add
  add-Added x w whole =
      >>=-Post (λ u x' w'. x'.field ≡ x.field) _ Any
        (try_catch (make_room (length x.field.value)) no_estimate) (λ u. put_value) x w
        (make_room-Post x w)
        (λ u x₁ w₁ e.
          Post-mono (put_value x₁ w₁) (λ rc x' w' l. rw (← e) l) (λ e' x' w' h. h)
            (put_value-Post x₁ w₁ (rw e whole)))

  get-Reads :
      (v buff : Text) (vs : List Text) (x : Site) (w : W)
      → ¬ IsString (f.fldtype32 x.field.id)
      → IsLastAdded v vs x w
      → length v ≡ length buff
      → Reads v (get x.field.occurence (blank buff x) w)
  unfolding get set_field_occurence
  get-Reads v buff vs x w other l same =
      let i = length vs in
      let (rc, v', n', w') = f.fget32 x.buffer.buffer x.field.id (pos i) buff (length buff) w in
      ground (
        arith,
        l,
        same,
        eqb_iff rc minus_one,
        get_elem?-last vs v i (omega (arith, length-append vs (v ∷ []))),
        law.got x.buffer.buffer x.field.id i (length buff) buff v w other,
        append-drop v buff,
      )

  get_string-Reads :
      (v buff : Text) (vs : List Text) (x : Site) (w : W)
      → IsString (f.fldtype32 x.field.id)
      → IsLastAdded v vs x w
      → Reads v (get_string x.field.occurence (blank buff x) w)
  unfolding get_string take_string set_field_occurence
  get_string-Reads v buff vs x w is_string l =
      let i = length vs in
      ground (
        arith,
        l,
        get_elem?-last vs v i (omega (arith, length-append vs (v ∷ []))),
        law.got_string x.buffer.buffer x.field.id i v w is_string,
      )

  -- If the typed buffers do what is documented: after an `add` of a field that is no string that
  -- returns, whatever value of the same length the field was set to since, a `get` of the
  -- field's occurence returns, and gives the field the value that was added.
  pub get-add :
      (buff : Text) (x : Site) (w : W)
      → ¬ IsString (f.fldtype32 x.field.id)
      → length x.field.value ≡ length buff
      → Post
          (λ rc x' w'. Reads x.field.value (get x'.field.occurence (blank buff x') w'))
          Any
          (add x w)
  get-add buff x w other same =
      Post-mono (add x w)
        (λ rc x' w' l. get-Reads x.field.value buff l.0 x' w' (rw l.2 other) l.1 same)
        (λ e x' w' u. u) (add-Added x w (λ e. absurd (other e)))

  -- If the typed buffers do what is documented: after an `add` of a string field, whose value
  -- has no NUL in it, that returns, whatever its value was set to since, a `get` of the field's
  -- occurence returns, and gives the field the value that was added.
  pub get_string-add_string :
      (buff : Text) (x : Site) (w : W)
      → IsString (f.fldtype32 x.field.id)
      → IsPlain x.field.value
      → Post
          (λ rc x' w'. Reads x.field.value (get_string x'.field.occurence (blank buff x') w'))
          Any
          (add_string x w)
  unfolding add_string
  get_string-add_string buff x w is_string plain =
      elim (Bool-cases (ltb 0 (length x.field.value))) [
        | inl some_value ↦ rw some_value (
            Post-mono (add x w)
              (λ rc x' w' l. get_string-Reads x.field.value buff l.0 x' w' (rw l.2 is_string) l.1)
              (λ e x' w' u. u) (add-Added x w (λ e. plain)))
        | inr empty ↦ rw empty tt
      ]
