-- ===== src/Field/Accessors.antt =====
-- src/field.cpp: what a field tells of itself.
use cpp_atmi.Prelude.{ℕ, [], ◌∷◌}
use cpp_atmi.Prelude.Int.{ℤ, pos}
use cpp_atmi.Atmi.Texts.{Text, Texts, num, str, bytes}
use cpp_atmi.Atmi.Fml.{Fml}
use cpp_atmi.Field.{Field}

unfoldable pub id : Field → ℤ
id d = d.id

unfoldable pub name : Field → Text
name d = d.name

unfoldable pub occurence : Field → ℤ
occurence d = d.occurence

-- `_ferror` is 0 from the constructor on: no function changes it.
unfoldable pub error : Field → ℤ
error d = pos 0

-- `setup` does nothing.
unfoldable pub setup : ℤ → Field → Field
setup id d = d

-- `operator=` of the base class.
unfoldable pub assign : Text → Field → Field
assign value d = d

module _ {W : Type 0} (f : Fml W) where
  unfoldable pub tname : Field → Text
  tname d = f.ftype32 d.id

  unfoldable pub number : Field → ℤ
  number d = f.fldno32 d.id

  unfoldable pub type : Field → ℤ
  type d = f.fldtype32 d.id

  -- `field::what`, of a field whose `length ()` is `len`. The conversions stand for insertions into
  -- a stream.
  unfoldable pub what : ⦃t : Texts⦄ → ℕ → Field → Text
  unfolding tname
  what ⦃t⦄ len d =
      t.format (bytes "Fid: %d, occurence: %d, name: %s, len: %d, type: %s.")
        (num d.id ∷ num d.occurence ∷ str d.name ∷ num (pos len) ∷ str (tname d) ∷ [])
