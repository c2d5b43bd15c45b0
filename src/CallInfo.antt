-- ===== src/CallInfo.antt =====
-- include/atmi/call_info.hpp and src/call_info.cpp: the class `call_info`.
pub mod Limits
use cpp_atmi.Prelude.{[], ◌∷◌, leb, if◌then◌else◌}
use cpp_atmi.Prelude.Int.{ℤ, pos}
use cpp_atmi.Prelude.Lists.{length}
use cpp_atmi.Atmi.Codes.{Constants}
use cpp_atmi.Atmi.Texts.{Text, Texts, str, num, bytes}
use cpp_atmi.Atmi.Calls.{Atmi, Ptr}
use cpp_atmi.Atmi.Fml.{Fml}
use cpp_atmi.Exceptions.{atmi_exception}
use cpp_atmi.Method.{Outcome, ok, err, Method, pure, throw, this, assign, ◌>>=◌, ◌>>◌, on}
use cpp_atmi.Tuxedo
use cpp_atmi.Buffer.{Buffer, new_sized, destroy, copy}
use cpp_atmi.Buffer.Fields.{print}
use cpp_atmi.Field.{Field, Site, set, get_string, string_field}

pub record CallInfo : Type 0 where
  pub buffer : Buffer
  pub ecid : Field

-- `_buffer.f ( _ecid )`
abbrev pub on_site : {W A : Type 0} → Method Site W A → Method CallInfo W A
on_site m =
    on (λ c. record { field = c.ecid; buffer = c.buffer })
      (λ x c. record { buffer = x.buffer; ecid = x.field }) m

module _ {W : Type 0} ⦃a : Atmi W⦄ ⦃t : Texts⦄ ⦃f : Fml W⦄ where
  unfoldable pub set_ecid : ⦃k : Constants⦄ → Text → Method CallInfo W (Unit {0})
  set_ecid ⦃k⦄ value =
      if leb (length value) k.maxecidlen
      then (assign (λ c. record c { ecid = record c.ecid { value = value } })
          >> on_site set
          >>= λ rc. pure tt)
      else throw (
          atmi_exception (bytes "ECID  %s is too long (max ECID len is : %d)")
            (str value ∷ num (pos k.maxecidlen) ∷ []))

  -- `ecid ()`
  unfoldable pub get_ecid : Method CallInfo W Text
  get_ecid = do
    occ ← this (λ c. c.ecid.occurence)
    on_site (get_string occ) >>= λ rc. pure tt
    this (λ c. c.ecid.value)

  -- The constructor: a buffer is destroyed where the field cannot be made. `backend` is as for
  -- `string_field`.
  unfoldable pub new : ⦃k : Constants⦄ → Text → W → Outcome CallInfo × W
  unfolding new_sized string_field destroy
  new backend w =
      let (r, b, w₁) = new_sized 2048 w in
      elim r [
        | err e ↦ (err e, Tuxedo.destroy b.tuxedo w₁)
        | ok v ↦
            (let (d, w₂) = string_field backend (bytes "TA_ECID") w₁ in
              elim d [
                | err e ↦ (err e, destroy b w₂)
                | ok ecid ↦ (ok (record { buffer = b; ecid = ecid }), w₂)
              ])
      ]

  -- `operator=`: the content of the other buffer is copied.
  unfoldable pub assign_info : CallInfo → Method CallInfo W (Unit {0})
  unfolding copy
  assign_info other = on (λ c. c.buffer) (λ b c. record c { buffer = b }) (copy other.buffer.buffer)

  -- `print ()`
  unfoldable pub print_info : Method CallInfo W (Unit {0})
  unfolding print
  print_info = on (λ c. c.buffer) (λ b c. record c { buffer = b }) print

-- `operator FBFR32 *`
unfoldable pub info_reference : CallInfo → Ptr
info_reference c = c.buffer.buffer
