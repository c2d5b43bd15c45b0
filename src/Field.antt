-- ===== src/Field.antt =====
-- include/atmi/field.hpp, template_field.hpp, string_field.hpp and src/field.cpp: the class
-- `field` and the fields of a number and of a string, with the buffer that they work on.
pub mod Store
pub mod Values
pub mod Accessors
pub mod Identified
pub mod Types
pub mod RoundTrip
use cpp_atmi.Prelude.{
  ℕ, zero, suc, ◌+◌, ◌-◌, ◌%◌, ◌==◌, String, Bool, true, false, not, Option, none, some, List, [],
  ◌∷◌, ltb, leb, if◌then◌else◌,
}
use cpp_atmi.Prelude.Int.{ℤ, pos, negsuc, minus_one, is_neg, eqb}
use cpp_atmi.Prelude.Lists.{length}
use cpp_atmi.Atmi.Codes.{Constants}
use cpp_atmi.Atmi.Texts.{Text, Texts, Arg, num, str, bytes}
use cpp_atmi.Atmi.Calls.{Atmi, Ptr}
use cpp_atmi.Atmi.Fml.{Fml}
use cpp_atmi.Exceptions.{
  Exception, is_buffer, what, atmi_exception, buffer_exception, field_exception,
}
use cpp_atmi.Method.{
  Method, Outcome, ok, err, pure, throw, this, assign, reads, calls, ◌>>=◌, ◌>>◌, on, try_catch,
  when,
}
use cpp_atmi.Buffer.{Buffer, sizes, to_size, size, used, extend, occurences}

-- The bytes of the value: of the string, or of the number as it lies in memory.
pub record Field : Type 0 where
  pub id : ℤ
  pub occurence : ℤ
  pub name : Text
  pub value : Text

-- A field and the buffer that is passed to its member functions.
pub record Site : Type 0 where
  pub field : Field
  pub buffer : Buffer

-- `set_field_occurence`: no negative occurence.
unfoldable pub set_field_occurence : ℤ → Field → Field
set_field_occurence occ f = record f { occurence = if is_neg occ then pos 0 else occ }

abbrev pub on_buffer : {W A : Type 0} → Method Buffer W A → Method Site W A
on_buffer m = on (λ x. x.buffer) (λ b x. record x { buffer = b }) m

-- n - 1
abbrev pub less_one : ℤ → ℤ
less_one (pos zero) = minus_one
less_one (pos (suc n)) = pos n
less_one (negsuc n) = negsuc (suc n)

-- The name, the identifier and the occurence, for a message.
abbrev pub told : Field → List Arg
told f = str f.name ∷ num f.id ∷ num f.occurence ∷ []

-- `Tfield<std::string>::check_type_match`: the type of a string is 5. `backend` is the name that
-- `typeid` has for the type of the value, `type` and `declared` what `type ()` and `tname ()` return.
unfoldable pub check_string_type : ⦃t : Texts⦄ → Text → ℤ → Text → Field → Outcome (Unit {0})
check_string_type backend type declared d =
    if eqb type (pos 5)
    then ok tt
    else err (
        atmi_exception
          (bytes "Tfield [%s] (id: %d) value is of type %s and the FML table decalares a type %s.")
          (str d.name ∷ num d.id ∷ str backend ∷ str declared ∷ []))

module _ {W : Type 0} ⦃a : Atmi W⦄ ⦃t : Texts⦄ ⦃f : Fml W⦄ where
  -- `field ( const std::string &name )`
  unfoldable pub named : ⦃k : Constants⦄ → Text → W → Outcome Field × W
  named ⦃k⦄ name w =
      let (id, w') = f.fldid32 name w in
      if eqb id k.badfldid
      then (
        err (
            field_exception (f.ferror32 w')
              (bytes
                "Failed to find the ID of field %s, check the values of FIELDTBLS32 and FLDTBLDIR32.")
              (str name ∷ [])),
        w',
      )
      else (ok (record { id = id; occurence = pos 0; name = name; value = [] }), w')

  -- `Tfield<std::string> ( const char *name )`
  unfoldable pub string_field : ⦃k : Constants⦄ → Text → Text → W → Outcome Field × W
  unfolding named check_string_type
  string_field backend name w =
      let (r, w') = named name w in
      elim r [
        | err e ↦ (err e, w')
        | ok d ↦ (
          elim (check_string_type backend (f.fldtype32 d.id) (f.ftype32 d.id) d) [
            | err e ↦ err e
            | ok v ↦ ok d
          ],
          w',
        )
      ]

  -- A call on the buffer and the field, where `rc` is its result.
  unfoldable pub positive : String → ℤ → Method Site W ℤ
  positive msg rc = do
    d ← this (λ x. x.field)
    e ← reads f.ferror32
    if is_neg rc then throw (buffer_exception e (bytes msg) (told d)) else pure rc

  -- `field::remove`
  unfoldable pub remove : Method Site W ℤ
  unfolding positive
  remove = do
    x ← this (λ x. x)
    rc ← calls (f.fdel32 x.buffer.buffer x.field.id x.field.occurence)
    positive "FDEL32 failed for field %s (id: %d, occ: %d) failed" rc

  -- `Tfield<std::string>::set`
  unfoldable pub set : Method Site W ℤ
  unfolding positive
  set = do
    x ← this (λ x. x)
    rc ←
        calls (
          f.fchg32 x.buffer.buffer x.field.id x.field.occurence x.field.value
            (length x.field.value))
    positive "FCHG32 Tfield::set failed for field %s (id: %d, occ: %d)" rc

  -- `field::needed`, for a value whose `length ()` is `len`.
  unfoldable pub needed : ℕ → Method Site W ℤ
  unfolding positive
  needed len = do
    rc ← calls (f.fneeded32 1 (if ltb 0 len then len else 1))
    positive
        "FNEEDED32: failed to estimate needed space for field %s (id: %d, occ: %d). Make sure field contains data (length() > 0)."
        rc

  module _ ⦃k : Constants⦄ where
    -- The body of the `try` of `add`.
    unfoldable pub make_room : ℕ → Method Site W (Unit {0})
    unfolding needed
    make_room len = do
      n ← needed len
      b ← this (λ x. x.buffer)
      u ← reads (used b)
      s ← reads (size b)
      when (leb s ((to_size n + u) % sizes)) (on_buffer extend)

    -- Its handler, for a buffer_exception.
    unfoldable pub no_estimate : Exception → Method Site W (Unit {0})
    no_estimate e =
        if is_buffer e.class
        then throw (
            atmi_exception
              (bytes "Add failed to estimate needed memory extension. Original message was : %s")
              (str (what e) ∷ []))
        else throw e

    -- The occurence after an addition is the last one. The conditional expression counts twice.
    unfoldable pub find_occurence : Method Site W (Unit {0})
    find_occurence = do
      d ← this (λ x. x.field)
      first ← on_buffer (occurences d.id d.name)
      occ ←
          (if eqb first (pos 0)
            then pure (pos 0)
            else (on_buffer (occurences d.id d.name) >>= λ n. pure (less_one n)))
      assign (λ x. record x { field = set_field_occurence occ x.field })

    -- The second half of `add`.
    unfoldable pub put_value : Method Site W ℤ
    unfolding positive
    put_value = do
      x ← this (λ x. x)
      rc ← calls (f.fadd32 x.buffer.buffer x.field.id x.field.value (length x.field.value))
      positive "FADD32 Tfield::add failed for field %s (id: %d, occ: %d)" rc >>= λ _. pure tt
      find_occurence
      pure rc

    -- `Tfield<T>::add`
    unfoldable pub add : Method Site W ℤ
    add = do d ← this (λ x. x.field); try_catch (make_room (length d.value)) no_estimate; put_value

    -- `Tfield<std::string>::add`: an empty value is refused.
    unfoldable pub add_string : Method Site W ℤ
    add_string = do
      d ← this (λ x. x.field)
      if ltb 0 (length d.value)
          then add
          else throw (
              atmi_exception
                (bytes "field %s's _value is empty !!?? Cannot add an empty field value.")
                (str d.name ∷ []))

  call_fget32 : Method Site W ℤ
  call_fget32 x w =
      let (rc, value, len, w') =
        f.fget32 x.buffer.buffer x.field.id x.field.occurence x.field.value (length x.field.value)
          w in
      (ok rc, record x { field = record x.field { value = value } }, w')

  -- `Tfield<T>::get ( b, occ )`; `get ( b )` is the call with the field's occurence.
  unfoldable pub get : ℤ → Method Site W ℤ
  unfolding call_fget32
  get occ = do
    assign (λ x. record x { field = set_field_occurence occ x.field })
    rc ← call_fget32
    d ← this (λ x. x.field)
    e ← reads f.ferror32
    if eqb rc minus_one
        then throw
            (buffer_exception e (bytes "FGET32 failed to get field %s (id: %d, occ: %d).") (told d))
        else pure rc

  unfoldable pub take_string : Option Text → Method Site W ℤ
  take_string (some value) =
      assign (λ x. record x { field = record x.field { value = value } }) >>= λ _. pure (pos 0)
  take_string none = do
    d ← this (λ x. x.field)
    e ← reads f.ferror32
    throw (
        buffer_exception e (bytes "FGETSA32 Tfield::get failed to get field %s (id: %d, occ: %d).")
          (told d))

  -- `Tfield<std::string>::get ( b, occ )`
  unfoldable pub get_string : ℤ → Method Site W ℤ
  unfolding take_string
  get_string occ = do
    assign (λ x. record x { field = set_field_occurence occ x.field })
    x ← this (λ x. x)
    value ← calls (f.fgetsa32 x.buffer.buffer x.field.id x.field.occurence)
    take_string value
