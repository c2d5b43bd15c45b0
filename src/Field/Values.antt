-- ===== src/Field/Values.antt =====
-- include/atmi/string_field.hpp and template_field.hpp: the value of a string field as a text, and
-- the construction of a field of a number.
use cpp_atmi.Prelude.{ℕ, ◌++◌, Option, [], ◌∷◌, if◌then◌else◌}
use cpp_atmi.Prelude.Lists.{length, get_elem?}
use cpp_atmi.Atmi.Codes.{Constants}
use cpp_atmi.Atmi.Texts.{Text, Texts, str, num, bytes, c_str}
use cpp_atmi.Atmi.Calls.{Atmi}
use cpp_atmi.Atmi.Fml.{Fml}
use cpp_atmi.Exceptions.{atmi_exception}
use cpp_atmi.Prelude.Int.{ℤ}
use cpp_atmi.Method.{Method, Outcome, ok, err}
use cpp_atmi.Buffer.{text_eqb}
use cpp_atmi.Field.{Field, Site, named, set}

-- `length ()` and `size ()`
unfoldable pub text_length : Field → ℕ
text_length d = length d.value

-- `operator+=`, of a string, of the text in a character array, and of a character
unfoldable pub append_text : Text → Field → Field
append_text s d = record d { value = d.value ++ s }

unfoldable pub append_array : Text → Field → Field
append_array s d = record d { value = d.value ++ c_str s }

unfoldable pub append_char : ℕ → Field → Field
append_char c d = record d { value = d.value ++ c ∷ [] }

-- `operator=`, of the same
unfoldable pub assign_text : Text → Field → Field
assign_text s d = record d { value = s }

unfoldable pub assign_array : Text → Field → Field
assign_array s d = record d { value = c_str s }

unfoldable pub assign_char : ℕ → Field → Field
assign_char c d = record d { value = c ∷ [] }

-- `operator[]`: the character behind the last one is a NUL, and `none` is one behind that.
unfoldable pub text_at : ℕ → Field → Option ℕ
text_at pos d = get_elem? (d.value ++ 0 ∷ []) pos

-- `check_type_match`: `backend` is the name that `typeid` has for the type of the value, and
-- `declared` what `tname ()` returns.
unfoldable pub check_type_match : ⦃t : Texts⦄ → Text → Text → Field → Outcome (Unit {0})
check_type_match backend declared d =
    if text_eqb backend declared
    then ok tt
    else err (
        atmi_exception
          (bytes
            "Tfield [%s] (id: %d) backend value is of type %s and the FML table decalares a type %s.")
          (str d.name ∷ num d.id ∷ str backend ∷ str declared ∷ []))

module _ {W : Type 0} ⦃a : Atmi W⦄ ⦃t : Texts⦄ ⦃f : Fml W⦄ where
  -- `Tfield<T> ( const char *name )`: `zeros` are the bytes of a `T` that is 0.
  unfoldable pub number_field : ⦃k : Constants⦄ → Text → Text → Text → W → Outcome Field × W
  unfolding named check_type_match
  number_field backend zeros name w =
      let (r, w') = named name w in
      elim r [
        | err e ↦ (err e, w')
        | ok d ↦ (
          elim (check_type_match backend (f.ftype32 d.id) d) [
            | err e ↦ err e
            | ok v ↦ ok (record d { value = zeros })
          ],
          w',
        )
      ]

  -- `Tfield<T>::set`
  unfoldable pub set_number : Method Site W ℤ
  unfolding set
  set_number = set

-- `operator=` and the cast of a field of a number: `v` are the bytes of the number.
unfoldable pub assign_number : Text → Field → Text × Field
assign_number v d = (v, record d { value = v })

unfoldable pub number_value : Field → Text
number_value d = d.value

-- `c_str ()` and the cast of a field of a string.
unfoldable pub text_array : Field → Text
text_array d = d.value ++ 0 ∷ []

unfoldable pub text_value : Field → Text
text_value d = d.value

-- src/string_field.cpp: `operator<<`, to a stream that holds `out`.
unfoldable pub put_text : Field → Text → Text
unfolding text_value
put_text d out = out ++ text_value d
