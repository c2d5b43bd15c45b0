-- ===== src/Carray/Gets.antt =====
-- A `get` of a carray leaves its backend well-formed.
use cpp_atmi.Prelude.{◌≡◌, ◌≢◌, ◌≤◌, inl, inr, arith, false, Bool-cases, ◌==◌}
use cpp_atmi.Prelude.Int.{ℤ, minus_one, eqb_iff}
use cpp_atmi.Atmi.Codes.{FmlError, fnospace}
use cpp_atmi.Atmi.Texts.{Texts}
use cpp_atmi.Atmi.Calls.{Atmi}
use cpp_atmi.Atmi.Fml.{Fml}
use cpp_atmi.Method.{Method, Post, >>=-Post}
use cpp_atmi.Field.{set_field_occurence}
use cpp_atmi.Field.Store.{IsBounded}
use cpp_atmi.Carray.{
  Carray, Place, free_ressources, get_alloc, call_fget32, is_fnospace, refill, get,
}
use cpp_atmi.Memory.{extent, behind, extent-written}
use cpp_atmi.Carray.Bounds.{IsStored}

other_error : (e : FmlError) → is_fnospace e ≡ false → e ≢ fnospace
other_error fnospace h = absurd (ground (arith, h))
other_error (FmlError.unlisted n) h = λ e. ground (arith, e)

module _ {W : Type 0} ⦃a : Atmi W⦄ ⦃t : Texts⦄ ⦃f : Fml W⦄ (law : IsBounded W) where
  -- The carray is well-formed, however the call ends.
  abbrev Stays : Method Place W ℤ → Place → W → Type 0
  Stays m x w = Post (λ rc x' w'. IsStored x'.carray) (λ e x' w'. IsStored x'.carray) (m x w)

  get_alloc-Stays :
      (x : Place) (w : W) → x.carray.buffer_size ≡ 0 → IsStored x.carray → Stays get_alloc x w
  unfolding get_alloc
  get_alloc-Stays x w h s =
      ground
        (arith, h, s, law.allocated x.buffer.buffer x.carray.field.id x.carray.field.occurence w)

  -- After the call of `Fget32` the length may be too large, where the call says so.
  abbrev IsFilled : ℤ → Place → W → Type 0
  IsFilled rc x w =
      (extent x.carray.value ≡ x.carray.buffer_size)
      × (x.carray.buffer_size ≢ 0)
      × (rc ≡ minus_one → f.ferror32 w ≢ fnospace → x.carray.length ≤ x.carray.buffer_size)

  call_fget32-Post :
      (occ : ℤ) (x : Place) (w : W)
      → IsStored x.carray
      → x.carray.buffer_size ≢ 0
      → Post IsFilled (λ e x' w'. ⊥) (call_fget32 occ x w)
  unfolding call_fget32
  call_fget32-Post occ x w s some_size =
      let c = x.carray in
      let (rc, v, n, w') = f.fget32 x.buffer.buffer c.field.id occ (behind c.value) c.length w in
      (
        omega (
          arith,
          s.sized,
          extent-written v c.value
              (law.filled x.buffer.buffer c.field.id occ (behind c.value) c.length w),
        ),
        some_size,
        λ r e. omega (
          arith,
          s.within,
          law.unfilled x.buffer.buffer c.field.id occ (behind c.value) c.length w r e,
        ),
      )

  freed :
      (c : Carray)
      → extent c.value ≡ c.buffer_size
      → c.buffer_size ≢ 0
      → ((free_ressources c).buffer_size ≡ 0) × IsStored (free_ressources c)
  unfolding free_ressources
  freed c h some_size = ground (arith, h, some_size)

  refill-Stays : (rc : ℤ) (x : Place) (w : W) → IsFilled rc x w → Stays (refill rc) x w
  unfolding refill
  refill-Stays rc x w h =
      let fresh = record x { carray = free_ressources x.carray } in
      ground (
        arith,
        h,
        eqb_iff rc minus_one,
        other_error (f.ferror32 w),
        get_alloc-Stays fresh w,
        freed x.carray h.0 h.1,
      )

  -- If Fget32 and Fgetalloc32 keep to the memory that they are given: however a `get` of a
  -- carray ends, with a throw or without, its backend has the size that the field says and its
  -- length is within it, if that was so before.
  pub get-IsStored : (occ : ℤ) (x : Place) (w : W) → IsStored x.carray → Stays (get occ) x w
  unfolding get set_field_occurence
  get-IsStored occ x w s =
      let here = record x {
        carray = record x.carray { field = set_field_occurence occ x.carray.field };
      } in
      elim (Bool-cases (x.carray.buffer_size == 0)) [
        | inl e ↦ rw e (
            get_alloc-Stays here w (ground (arith, e))
              (record { sized = s.sized; within = s.within }))
        | inr e ↦ rw e (
            >>=-Post IsFilled _ _ (call_fget32 occ) refill here w
              (call_fget32-Post occ here w (record { sized = s.sized; within = s.within })
                (ground (arith, e)))
              refill-Stays)
      ]
