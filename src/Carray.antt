-- ===== src/Carray.antt =====
-- include/atmi/carray_field.hpp: `Tfield<char *>`, a field over a character array of its own.
pub mod Bounds
pub mod Gets
pub mod Getters
pub mod RoundTrip
use cpp_atmi.Prelude.{
  ℕ, zero, suc, ◌+◌, ◌==◌, String, Bool, true, false, not, ◌&&◌, Option, none, some, List, [], ◌∷◌,
  ltb, leb, if◌then◌else◌,
}
use cpp_atmi.Prelude.Int.{ℤ, pos, negsuc, minus_one, is_neg, eqb}
use cpp_atmi.Prelude.Lists.{length, take, get_elem?, replicate}
use cpp_atmi.Atmi.Codes.{Constants, FmlError, fnospace}
use cpp_atmi.Atmi.Texts.{Text, Texts, str, num, bytes}
use cpp_atmi.Atmi.Calls.{Atmi}
use cpp_atmi.Atmi.Fml.{Fml}
use cpp_atmi.Exceptions.{Exception, is_buffer, what, atmi_exception, buffer_exception}
use cpp_atmi.Method.{
  Method, Outcome, ok, err, pure, throw, this, assign, reads, calls, ◌>>=◌, ◌>>◌, on, try_catch,
}
use cpp_atmi.Buffer.{Buffer}
use cpp_atmi.Field.{
  Field, Site, told, set_field_occurence, named, positive, make_room, find_occurence,
}
use cpp_atmi.Memory.{memcpy, behind, written}

-- `field` is the base class: its identifier, occurence and name. `value` is NULL, or an array of
-- its own with all of its bytes.
pub record Carray : Type 0 where
  pub field : Field
  pub length : ℕ
  pub buffer_size : ℕ
  pub value : Option Text

-- A field and the buffer that is passed to its member functions.
pub record Place : Type 0 where
  pub carray : Carray
  pub buffer : Buffer

-- A member function of the base class.
abbrev pub on_site : {W A : Type 0} → Method Site W A → Method Place W A
on_site m =
    on (λ x. record { field = x.carray.field; buffer = x.buffer })
      (λ s x. record { carray = record x.carray { field = s.field }; buffer = s.buffer }) m

abbrev on_carray : {W : Type 0} → (Carray → Carray) → Method Place W (Unit {0})
on_carray g = assign (λ x. record x { carray = g x.carray })

-- The bytes from `_value` on that a call is given with `_length`.
abbrev pub content : Carray → Text
content c = elim c.value [ none ↦ [] | some v ↦ take c.length v ]

unfoldable pub free_ressources : Carray → Carray
free_ressources c = elim c.value [
  | none ↦ c
  | some v ↦ record c { buffer_size = 0; length = 0; value = none }
]

-- The backend of `set_char_array`: a new one if the old one is too small. Its bytes are all
-- written next.
unfoldable pub make_backend : ℕ → Carray → Carray
unfolding free_ressources
make_backend size c =
    if ltb c.buffer_size size
    then record (free_ressources c) { buffer_size = size; value = some (replicate size 0) }
    else c

-- `none` is an access outside of the memory, here and below.
unfoldable pub set_char_array : Option Text → ℕ → Carray → Option Carray
unfolding make_backend
set_char_array carray size c =
    let b = make_backend size c in
    elim (memcpy b.value carray size) [
      | none ↦ none
      | some v ↦ some (record b { length = size; value = v })
    ]

-- `get_char_array ( carray, size )`: what is in `carray` then, and the field.
unfoldable pub get_char_array : Option Text → ℕ → Carray → Option (Option Text × Carray)
get_char_array carray size c =
    let n = if ltb size c.buffer_size then size else c.buffer_size in
    elim (memcpy carray c.value n) [ none ↦ none | some to ↦ some (to, record c { length = n }) ]

-- `operator=`
unfoldable pub assign_carray : Carray → Carray → Option Carray
assign_carray other c = set_char_array other.value other.length c

abbrev pub is_fnospace : FmlError → Bool
is_fnospace fnospace = true
is_fnospace (FmlError.unlisted n) = false

-- `operator[]`: the exception for an index that is not in range is made, and not thrown.
unfoldable pub char_at : ℤ → Carray → Option ℕ
char_at (pos index) c = elim c.value [ none ↦ none | some v ↦ get_elem? v index ]
char_at (negsuc index) c = none

-- `Tfield ( const char *field_name )`: the type of a carray is 6.
unfoldable pub carray_field :
    {W : Type 0}
    → ⦃a : Atmi W⦄ → ⦃t : Texts⦄ → ⦃f : Fml W⦄ → ⦃k : Constants⦄ → Text
    → W
    → Outcome Carray × W
unfolding named
carray_field ⦃f = f⦄ field_name w =
    let (r, w') = named field_name w in
    elim r [
      | err e ↦ (err e, w')
      | ok d ↦ (
        if eqb (f.fldtype32 d.id) (pos 6)
            then ok (record { field = d; length = 0; buffer_size = 0; value = none })
            else err (
                atmi_exception
                  (bytes
                    "Tfield value is of type carray and the FML table decalares a type %s for %s.")
                  (str (f.ftype32 d.id) ∷ str d.name ∷ [])),
        w',
      )
    ]

module _ {W : Type 0} ⦃a : Atmi W⦄ ⦃t : Texts⦄ ⦃f : Fml W⦄ where
  unfoldable pub set : Method Place W ℤ
  unfolding positive
  set = do
    x ← this (λ x. x)
    rc ← calls (
        f.fchg32 x.buffer.buffer x.carray.field.id x.carray.field.occurence (content x.carray)
          x.carray.length)
    on_site (positive "FCHG32 Tfield::set<char *> failed for field %s (id: %d, occ: %d)" rc)

  module _ ⦃k : Constants⦄ where
    unfoldable pub no_estimate : Exception → Method Place W (Unit {0})
    no_estimate e =
        if is_buffer e.class
        then throw (
            atmi_exception (bytes "Add failed to estimate needed memory extension. %s")
              (str (what e) ∷ []))
        else throw e

    -- The second half of `add`.
    unfoldable pub put_value : Method Place W ℤ
    unfolding positive
    put_value = do
      x ← this (λ x. x)
      rc ← calls (f.fadd32 x.buffer.buffer x.carray.field.id (content x.carray) x.carray.length)
      on_site (positive "FADD32 Tfield::add<char *> failed for field %s (id: %d, occ: %d)" rc)
          >>= λ _. pure tt
      on_site find_occurence
      pure rc

    unfoldable pub add : Method Place W ℤ
    add = do
      c ← this (λ x. x.carray)
      if ltb 0 c.length
          then (try_catch (on_site (make_room c.length)) no_estimate >> put_value)
          else throw (
              atmi_exception
                (bytes "field %s's value is empty !!?? Cannot add an empty field _value.")
                (str c.field.name ∷ []))

  -- `Fgetalloc32 ( ..., &_buffer_size )`, and what is made of its result.
  unfoldable pub get_alloc : Method Place W ℤ
  get_alloc x w =
      let c = x.carray in
      let (value, n, w') =
        f.fgetalloc32 x.buffer.buffer c.field.id c.field.occurence c.buffer_size w in
      elim value [
        | some v ↦ (
          ok (pos 0),
          record x { carray = record c { value = some v; buffer_size = n; length = n } },
          w',
        )
        | none ↦ (
          err (
              buffer_exception (f.ferror32 w')
                (bytes "FGETALLOC32 Tfield::get<char *> failed to get field %s (id: %d, occ: %d).")
                (told c.field)),
          record x { carray = record c { value = none; buffer_size = n } },
          w',
        )
      ]

  -- `Fget32 ( ..., _value, &_length )`. The bytes behind a NULL backend are none.
  unfoldable pub call_fget32 : ℤ → Method Place W ℤ
  call_fget32 occ x w =
      let c = x.carray in
      let (rc, v, n, w') = f.fget32 x.buffer.buffer c.field.id occ (behind c.value) c.length w in
      (ok rc, record x { carray = record c { value = written v c.value; length = n } }, w')

  -- What `get` does with the result of `Fget32`.
  unfoldable pub refill : ℤ → Method Place W ℤ
  refill rc = do
    c ← this (λ x. x.carray)
    e ← reads f.ferror32
    if not (eqb rc minus_one) && ltb c.buffer_size c.length
        then (on_carray free_ressources >> get_alloc)
        else if eqb rc minus_one && is_fnospace e
        then (on_carray free_ressources >> get_alloc)
        else pure rc

  -- `get ( b, occ )`; `get ( b )` is the call with the field's occurence.
  unfoldable pub get : ℤ → Method Place W ℤ
  unfolding call_fget32
  get occ = do
    on_carray (λ c. record c { field = set_field_occurence occ c.field })
    c ← this (λ x. x.carray)
    if c.buffer_size == 0 then get_alloc else (call_fget32 occ >>= refill)
