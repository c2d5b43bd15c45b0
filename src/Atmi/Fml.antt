-- ===== src/Atmi/Fml.antt =====
-- The calls of the FML32 library, on buffers that live in `W`.
use cpp_atmi.Prelude.{ℕ, Option}
use cpp_atmi.Prelude.Int.{ℤ}
use cpp_atmi.Atmi.Codes.{FmlError}
use cpp_atmi.Atmi.Texts.{Text}
use cpp_atmi.Atmi.Calls.{Ptr}

pub record Fml (W : Type 0) : Type 0 where
  -- FMLTYPE32
  pub fmltype32 : Text
  pub ferror32 : W → FmlError
  pub fsizeof32 : Ptr → W → ℤ
  pub fused32 : Ptr → W → ℤ
  pub funused32 : Ptr → W → ℤ
  pub fnum32 : Ptr → W → ℤ
  pub fchksum32 : Ptr → W → ℤ × W
  pub fcpy32 : Ptr → Ptr → W → ℤ × W
  -- Foccur32(fbfr, fieldid)
  pub foccur32 : Ptr → ℤ → W → ℤ × W
  -- Fneeded32(count, length)
  pub fneeded32 : ℕ → ℕ → W → ℤ × W
  -- Fchg32(fbfr, fieldid, oc, value, len)
  pub fchg32 : Ptr → ℤ → ℤ → Text → ℕ → W → ℤ × W
  -- Fadd32(fbfr, fieldid, value, len)
  pub fadd32 : Ptr → ℤ → Text → ℕ → W → ℤ × W
  pub fdel32 : Ptr → ℤ → ℤ → W → ℤ × W
  -- Fget32(fbfr, fieldid, oc, value, &maxlen): the result, what `value` points to, and `maxlen`
  pub fget32 : Ptr → ℤ → ℤ → Text → ℕ → W → ℤ × Text × ℕ × W
  -- Fgetsa32(fbfr, fieldid, oc, &extralen): NULL or a text
  pub fgetsa32 : Ptr → ℤ → ℤ → W → Option Text × W
  -- Fldid32(name)
  pub fldid32 : Text → W → ℤ × W
  -- Fldtype32(fieldid) and Ftype32(fieldid)
  pub fldtype32 : ℤ → ℤ
  pub ftype32 : ℤ → Text
  -- Fgetalloc32(fbfr, fieldid, oc, &extralen): NULL or the bytes of the value in memory of its own,
  -- and `extralen`
  pub fgetalloc32 : Ptr → ℤ → ℤ → ℕ → W → Option Text × ℕ × W
  -- Fldno32(fieldid)
  pub fldno32 : ℤ → ℤ
  -- Fname32(fieldid): NULL or a text
  pub fname32 : ℤ → W → Option Text × W
  -- Fprint32(fbfr), and Fsprint32(fbfr, buf) with what `buf` points to
  pub fprint32 : Ptr → W → W
  pub fsprint32 : Ptr → W → Text × W
