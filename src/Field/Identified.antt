-- ===== src/Field/Identified.antt =====
-- The constructors of fields that take an id, or nothing. They make a std::string from NULL, whose
-- behaviour is undefined: `none`.
use cpp_atmi.Prelude.{Option, none, some, [], ◌∷◌, ◌≡◌, refl, if◌then◌else◌}
use cpp_atmi.Prelude.Int.{ℤ, pos, is_pos}
use cpp_atmi.Atmi.Codes.{Constants}
use cpp_atmi.Atmi.Texts.{Text, Texts, num, bytes}
use cpp_atmi.Atmi.Fml.{Fml}
use cpp_atmi.Exceptions.{atmi_exception, field_exception}
use cpp_atmi.Method.{Outcome, ok, err}
use cpp_atmi.Carray.{Carray}
use cpp_atmi.Field.{Field, check_string_type}
use cpp_atmi.Field.Values.{check_type_match}

-- std::string ( const char * ), and the assignment of a `const char *`
unfoldable pub string_of : Option Text → Option Text
string_of s = s

-- `field ()`
unfoldable pub unset_field : ⦃k : Constants⦄ → Option Field
unfolding string_of
unset_field ⦃k⦄ = elim (string_of none) [
  | none ↦ none
  | some name ↦ some (record { id = k.badfldid; occurence = pos 0; name = name; value = [] })
]

-- `Tfield<T> ()`: `zeros` are the bytes of a `T` that is 0.
unfoldable pub unset_number_field : ⦃k : Constants⦄ → Text → Option Field
unfolding unset_field
unset_number_field zeros = elim unset_field [
  | none ↦ none
  | some d ↦ some (record d { value = zeros })
]

module _ {W : Type 0} ⦃t : Texts⦄ ⦃f : Fml W⦄ where
  -- The body of `field ( FLDID32 id )`: an id is positive, and has a name.
  unfoldable pub name_field : ℤ → Text → W → Option (Outcome Field × W)
  unfolding string_of
  name_field id old w =
      if is_pos id
      then (let (found, w') = f.fname32 id w in
          elim (string_of found) [
            | none ↦ none
            | some [] ↦ some (
              err (
                  field_exception (f.ferror32 w')
                    (bytes
                      "Failed to find the name for field ID %d, check the values of FIELDTBLS32 and FLDTBLDIR32.")
                    (num id ∷ [])),
              w',
            )
            | some (c ∷ name) ↦
                some (ok (record { id = id; occurence = pos 0; name = c ∷ name; value = [] }), w')
          ])
      else some (err (atmi_exception (bytes "Bad field id (id: %d).") (num id ∷ [])), w)

  -- `field ( FLDID32 id )`
  unfoldable pub id_field : ℤ → W → Option (Outcome Field × W)
  unfolding string_of name_field
  id_field id w = elim (string_of none) [ none ↦ none | some name ↦ name_field id name w ]

  -- `Tfield<T> ( FLDID32 field_id )` and `Tfield<std::string> ( FLDID32 fid )`
  unfoldable pub number_field : Text → Text → ℤ → W → Option (Outcome Field × W)
  unfolding id_field check_type_match
  number_field backend zeros id w = elim (id_field id w) [
    | none ↦ none
    | some (err e, w') ↦ some (err e, w')
    | some (ok d, w') ↦ some (
      elim (check_type_match backend (f.ftype32 d.id) d) [
        | err e ↦ err e
        | ok v ↦ ok (record d { value = zeros })
      ],
      w',
    )
  ]

  unfoldable pub string_field : Text → ℤ → W → Option (Outcome Field × W)
  unfolding id_field check_string_type
  string_field backend id w = elim (id_field id w) [
    | none ↦ none
    | some (err e, w') ↦ some (err e, w')
    | some (ok d, w') ↦ some (
      elim (check_string_type backend (f.fldtype32 d.id) (f.ftype32 d.id) d) [
        | err e ↦ err e
        | ok v ↦ ok d
      ],
      w',
    )
  ]

  -- `Tfield<char *> ( FLDID32 fid )`, which checks no type.
  unfoldable pub carray_field : ℤ → W → Option (Outcome Carray × W)
  unfolding id_field
  carray_field id w = elim (id_field id w) [
    | none ↦ none
    | some (err e, w') ↦ some (err e, w')
    | some (ok d, w') ↦
        some (ok (record { field = d; length = 0; buffer_size = 0; value = none }), w')
  ]

-- Whatever the id is, no such construction has a defined behaviour.
pub id_fields-undefined :
    {W : Type 0} ⦃t : Texts⦄ ⦃f : Fml W⦄ ⦃k : Constants⦄ (backend zeros : Text) (id : ℤ) (w : W)
    → (unset_number_field zeros ≡ none)
      × (number_field backend zeros id w ≡ none)
      × (string_field backend id w ≡ none)
      × (carray_field id w ≡ none)
unfolding unset_number_field unset_field number_field string_field carray_field id_field
id_fields-undefined backend zeros id w = (refl, refl, refl, refl)
