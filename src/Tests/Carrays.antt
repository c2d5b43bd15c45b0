-- ===== src/Tests/Carrays.antt =====
-- The theorems on carrays at concrete inputs.
use cpp_atmi.Prelude.{◌≡◌, refl, none, some, [], ◌∷◌, true, arith}
use cpp_atmi.Prelude.Int.{pos}
use cpp_atmi.Atmi.Texts.{Text, bytes}
use cpp_atmi.Method.{Post}
use cpp_atmi.Field.{Field}
use cpp_atmi.Carray.{
  Carray, Place, free_ressources, make_backend, set_char_array, get_char_array, assign_carray,
  char_at, get, add,
}
use cpp_atmi.Memory.{memcpy}
use cpp_atmi.Carray.Bounds.{IsStored, fill, fetch, copy, index, apply_all, apply_all-IsStored}
use cpp_atmi.Carray.Gets.{get-IsStored}
use cpp_atmi.Carray.RoundTrip.{Holds, with_backend, get-add_carray}
use cpp_atmi.Tests.Domain.{constants, texts, atmi, fml, start, base}
use cpp_atmi.Tests.Laws.{store, bounded}

abbrev hi : Text
hi = 104 ∷ 105 ∷ []

abbrev abc : Text
abc = 97 ∷ 98 ∷ 99 ∷ []

abbrev field : Field
field = record { id = pos 4; occurence = pos 0; name = bytes "BYTES"; value = [] }

abbrev fresh : Carray
fresh = record { field = field; length = 0; buffer_size = 0; value = none }

-- Two bytes, in a backend of two.
abbrev small : Carray
small = record { field = field; length = 2; buffer_size = 2; value = some hi }

-- Three bytes.
abbrev full : Carray
full = record { field = field; length = 3; buffer_size = 3; value = some abc }

fresh-IsStored : IsStored fresh
fresh-IsStored = record { sized = refl; within = omega arith }

small-IsStored : IsStored small
small-IsStored = record { sized = refl; within = omega arith }

full-IsStored : IsStored full
full-IsStored = record { sized = refl; within = omega arith }

abbrev place : Place
place = record {
  carray = full;
  buffer = record { tuxedo = base; buffer = some 1; allocated = true; extent = 1024 };
}

apply_all-IsStored_example :
    (c' : Carray) × (apply_all
        (fill (some abc) 3
          ∷ index (pos 2)
          ∷ fetch (some (12 ∷ 13 ∷ 14 ∷ 15 ∷ [])) 2
          ∷ copy small
          ∷ [])
        (some fresh)
      ≡ some c')
    × IsStored c'
unfolding set_char_array make_backend free_ressources get_char_array assign_carray char_at memcpy
apply_all-IsStored_example =
    apply_all-IsStored
      (fill (some abc) 3
        ∷ index (pos 2)
        ∷ fetch (some (12 ∷ 13 ∷ 14 ∷ 15 ∷ [])) 2
        ∷ copy small
        ∷ [])
      fresh fresh-IsStored (omega arith, (omega arith, (omega arith, (small-IsStored, tt))))

get-IsStored_example :
    Post
      (λ rc x' w'. IsStored x'.carray)
      (λ e x' w'. IsStored x'.carray)
      (get (pos 0) place (start []))
get-IsStored_example = get-IsStored bounded (pos 0) place (start []) full-IsStored

get-add_carray_example :
    Post
      (λ rc x' w'. Holds abc (get x'.carray.field.occurence (with_backend small x') w'))
      (λ e x' w'. Unit {0})
      (add place (start []))
get-add_carray_example =
    get-add_carray store small place (start []) (λ e. ground (arith, e)) full-IsStored
      small-IsStored
