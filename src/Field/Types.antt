-- ===== src/Field/Types.antt =====
-- A field that was constructed has the type that its class is for.
use cpp_atmi.Prelude.{
  ◌≡◌, ◌≢◌, ◌⊎◌, refl, Bool, true, false, none, [], ◌∷◌, arith, Bool-cases, inl, inr, if◌then◌else◌,
  ap, sym, ◌∙◌,
}
use cpp_atmi.Prelude.Int.{ℤ, pos, eqb, eqb_iff}
use cpp_atmi.Atmi.Codes.{Constants}
use cpp_atmi.Atmi.Texts.{Text, Texts, str, bytes}
use cpp_atmi.Atmi.Calls.{Atmi}
use cpp_atmi.Atmi.Fml.{Fml}
use cpp_atmi.Exceptions.{Class, ferror, atmi_exception, field_exception}
use cpp_atmi.Method.{Outcome, ok, err}
use cpp_atmi.Buffer.{text_eqb}
use cpp_atmi.Field.{Field, named, string_field, check_string_type}
use cpp_atmi.Field.Values.{number_field, check_type_match}
use cpp_atmi.Carray.{Carray, carray_field}

-- What a class checks of a field that was found: its value is set, or the type is another one.
abbrev Checked : Text → Bool → Field → Outcome Field → Type 0
Checked zeros fits d (ok d') =
    (fits ≡ true)
    × (d'.id ≡ d.id)
    × (d'.name ≡ d.name)
    × (d'.occurence ≡ d.occurence)
    × (d'.value ≡ zeros)
Checked zeros fits d (err e) = (fits ≡ false) × (e.class ≡ Class.atmi)

-- The same of the constructor of a carray.
abbrev CarrayChecked : Bool → Field → Outcome Carray → Type 0
CarrayChecked fits d (ok c) =
    (fits ≡ true) × (c.field ≡ d) × (c.length ≡ 0) × (c.buffer_size ≡ 0) × (c.value ≡ none)
CarrayChecked fits d (err e) = (fits ≡ false) × (e.class ≡ Class.atmi)

ne_of_eqb : (a b : ℤ) → eqb a b ≡ false → a ≢ b
ne_of_eqb a b h = ground (arith, eqb_iff a b)

module _ ⦃t : Texts⦄ where
  string-Checked :
      (backend : Text) (type : ℤ) (declared : Text) (d : Field)
      → d.value ≡ []
      → Checked []
          (eqb type (pos 5))
          d
          (elim (check_string_type backend type declared d) [ err e ↦ err e | ok v ↦ ok d ])
  unfolding check_string_type atmi_exception
  string-Checked backend type declared d h = elim (Bool-cases (eqb type (pos 5))) [
    | inl fits ↦ rw (fits, check_string_type) (refl, refl, refl, refl, h)
    | inr other ↦ rw (other, check_string_type) (refl, refl)
  ]

  number-Checked :
      (backend declared zeros : Text) (d : Field)
      → Checked zeros (text_eqb backend declared) d (elim (check_type_match backend declared d) [
        | err e ↦ err e
        | ok v ↦ ok (record d { value = zeros })
      ])
  unfolding check_type_match atmi_exception
  number-Checked backend declared zeros d = elim (Bool-cases (text_eqb backend declared)) [
    | inl fits ↦ rw (fits, check_type_match) (refl, refl, refl, refl, refl)
    | inr other ↦ rw (other, check_type_match) (refl, refl)
  ]

  carray-Checked :
      (type : ℤ) (declared : Text) (d : Field)
      → CarrayChecked (eqb type (pos 6)) d (
          if eqb type (pos 6)
          then ok (record { field = d; length = 0; buffer_size = 0; value = none })
          else err (
              atmi_exception
                (bytes
                  "Tfield value is of type carray and the FML table decalares a type %s for %s.")
                (str declared ∷ str d.name ∷ [])))
  unfolding atmi_exception
  carray-Checked type declared d = elim (Bool-cases (eqb type (pos 6))) [
    | inl fits ↦ rw (fits) (refl, refl, refl, refl, refl)
    | inr other ↦ rw (other) (refl, refl)
  ]

module _ {W : Type 0} ⦃a : Atmi W⦄ ⦃t : Texts⦄ ⦃f : Fml W⦄ ⦃k : Constants⦄ where
  -- The construction of a field with a name, where `found` is what Fldid32 gave for it, `zeros` the
  -- value of a new field, and `fits` says which ids are declared with the type of the class.
  abbrev pub Typed : Text → Text → (ℤ → Bool) → ℤ × W → Outcome Field × W → Type 0
  Typed name zeros fits (id, w) (ok d, w') =
      (w' ≡ w)
      × (id ≢ k.badfldid)
      × (fits id ≡ true)
      × (d.id ≡ id)
      × (d.name ≡ name)
      × (d.occurence ≡ pos 0)
      × (d.value ≡ zeros)
  Typed name zeros fits (id, w) (err e, w') =
      (w' ≡ w)
      × (((id ≡ k.badfldid) × (e.class ≡ Class.field) × (e.error ≡ ferror (f.ferror32 w)))
          ⊎ ((id ≢ k.badfldid) × (fits id ≡ false) × (e.class ≡ Class.atmi)))

  -- The base class of a carray.
  abbrev pub field_part : Outcome Carray × W → Outcome Field × W
  field_part (ok c, w) = (ok c.field, w)
  field_part (err e, w) = (err e, w)

  abbrev pub IsBlank : Outcome Carray × W → Type 0
  IsBlank (ok c, w) = (c.length ≡ 0) × (c.buffer_size ≡ 0) × (c.value ≡ none)
  IsBlank (err e, w) = Unit {0}

  abbrev carray_of : (Field → Outcome Carray) → Outcome Field × W → Outcome Carray × W
  carray_of check (r, w) = elim r [ err e ↦ (err e, w) | ok d ↦ (check d, w) ]

  named-Typed : (name : Text) (w : W) → Typed name [] (λ id. true) (f.fldid32 name w) (named name w)
  unfolding named field_exception atmi_exception
  named-Typed name w =
      let (id, w') = f.fldid32 name w in
      elim (Bool-cases (eqb id k.badfldid)) [
        | inl bad ↦ rw (named, bad) (refl, inl ((eqb_iff id k.badfldid).0 bad, refl, refl))
        | inr good ↦
            rw (named, good) (refl, ne_of_eqb id k.badfldid good, refl, refl, refl, refl, refl)
      ]

  check-Typed :
      (name zeros : Text) (fits : ℤ → Bool) (found : ℤ × W) (check : Field → Outcome Field)
      (o : Outcome Field × W)
      → Typed name [] (λ id. true) found o
      → ((d : Field) → d.value ≡ [] → Checked zeros (fits d.id) d (check d))
      → Typed name zeros fits found
          (let (r, w') = o in elim r [ err e ↦ (err e, w') | ok d ↦ (check d, w') ])
  check-Typed name zeros fits (id, w) check (ok d, w') n c = go (check d) (c d n.6)
    where
      go :
          (r : Outcome Field)
          → Checked zeros (fits d.id) d r
          → Typed name zeros fits (id, w) (r, w')
      go (ok d') h = ground (arith, n, h)
      go (err e) h = ground (arith, n, h)
  check-Typed name zeros fits (id, w) check (err e, w') n c = ground (arith, n)

  check_carray-Typed :
      (name : Text) (fits : ℤ → Bool) (found : ℤ × W) (check : Field → Outcome Carray)
      (o : Outcome Field × W)
      → Typed name [] (λ id. true) found o
      → ((d : Field) → CarrayChecked (fits d.id) d (check d))
      → Typed name [] fits found (field_part (carray_of check o)) × IsBlank (carray_of check o)
  check_carray-Typed name fits (id, w) check (ok d, w') n c = go (check d) (c d)
    where
      go :
          (r : Outcome Carray)
          → CarrayChecked (fits d.id) d r
          → Typed name [] fits (id, w) (field_part (r, w')) × IsBlank (r, w')
      go (ok c') h = (
        (
          n.0,
          n.1,
          ap fits (sym n.3) ∙ h.0,
          ap (λ x. x.id) h.1 ∙ n.3,
          ap (λ x. x.name) h.1 ∙ n.4,
          ap (λ x. x.occurence) h.1 ∙ n.5,
          ap (λ x. x.value) h.1 ∙ n.6,
        ),
        (h.2, h.3, h.4),
      )
      go (err e) h = (ground (arith, n, h), tt)
  check_carray-Typed name fits (id, w) check (err e, w') n c = (ground (arith, n), tt)

  carray-Typed :
      (name : Text) (w : W)
      → Typed name []
          (λ id. eqb (f.fldtype32 id) (pos 6))
          (f.fldid32 name w)
          (field_part (carray_field name w))
        × IsBlank (carray_field name w)
  unfolding carray_field atmi_exception
  carray-Typed name w =
      check_carray-Typed name (λ id. eqb (f.fldtype32 id) (pos 6)) (f.fldid32 name w)
        (λ d.
          if eqb (f.fldtype32 d.id) (pos 6)
          then ok (record { field = d; length = 0; buffer_size = 0; value = none })
          else err (
              atmi_exception
                (bytes
                  "Tfield value is of type carray and the FML table decalares a type %s for %s.")
                (str (f.ftype32 d.id) ∷ str d.name ∷ [])))
        (named name w) (named-Typed name w)
        (λ d. carray-Checked (f.fldtype32 d.id) (f.ftype32 d.id) d)

  -- A string, number or carray field that was constructed by its name has that name, occurence
  -- 0, an empty value, and the id that Fldid32 found for the name, whose type in the field
  -- tables is the one of the class. The construction throws exactly for a name without an id, a
  -- field_exception with Ferror32, and for an id of another type, an atmi_exception. The world
  -- stays as it is.
  pub fields-Typed :
      (backend zeros name : Text) (w : W)
      → Typed name []
          (λ id. eqb (f.fldtype32 id) (pos 5))
          (f.fldid32 name w)
          (string_field backend name w)
        × Typed name zeros
            (λ id. text_eqb backend (f.ftype32 id))
            (f.fldid32 name w)
            (number_field backend zeros name w)
        × Typed name []
            (λ id. eqb (f.fldtype32 id) (pos 6))
            (f.fldid32 name w)
            (field_part (carray_field name w))
        × IsBlank (carray_field name w)
  unfolding string_field number_field
  fields-Typed backend zeros name w =
      let found = f.fldid32 name w in
      let one = named-Typed name w in
      let (carray, blank) = carray-Typed name w in
      (
        check-Typed name [] (λ id. eqb (f.fldtype32 id) (pos 5)) found
            (λ d. elim (check_string_type backend (f.fldtype32 d.id) (f.ftype32 d.id) d) [
              | err e ↦ err e
              | ok v ↦ ok d
            ])
            (named name w) one
            (λ d h. string-Checked backend (f.fldtype32 d.id) (f.ftype32 d.id) d h),
        check-Typed name zeros (λ id. text_eqb backend (f.ftype32 id)) found
            (λ d. elim (check_type_match backend (f.ftype32 d.id) d) [
              | err e ↦ err e
              | ok v ↦ ok (record d { value = zeros })
            ])
            (named name w) one (λ d h. number-Checked backend (f.ftype32 d.id) zeros d),
        carray,
        blank,
      )
