-- ===== src/Buffer/Fields.antt =====
-- src/buffer.cpp: what a buffer does with a field, and how it is printed.
use cpp_atmi.Prelude.{ℕ}
use cpp_atmi.Prelude.Int.{ℤ}
use cpp_atmi.Atmi.Texts.{Text}
use cpp_atmi.Atmi.Calls.{Ptr}
use cpp_atmi.Atmi.Fml.{Fml}
use cpp_atmi.Method.{Method, ok, pure, does, this, ◌>>=◌}
use cpp_atmi.Buffer.{Buffer}

-- The virtual functions of a field; `S` is the field and the buffer that it works on.
pub record Virtual (S W : Type 0) : Type 0 where
  pub set : Method S W ℤ
  pub add : Method S W ℤ
  pub get : Method S W ℤ
  pub get_at : ℤ → Method S W ℤ
  pub remove : Method S W ℤ

module _ {S W : Type 0} (f : Virtual S W) where
  unfoldable pub set : Method S W (Unit {0})
  set = f.set >>= λ rc. pure tt

  unfoldable pub add : Method S W (Unit {0})
  add = f.add >>= λ rc. pure tt

  unfoldable pub get : Method S W (Unit {0})
  get = f.get >>= λ rc. pure tt

  unfoldable pub get_at : ℤ → Method S W (Unit {0})
  get_at occ = f.get_at occ >>= λ rc. pure tt

  unfoldable pub remove : Method S W (Unit {0})
  remove = f.remove >>= λ rc. pure tt

unfoldable pub extent : Buffer → ℕ
extent b = b.extent

-- `operator FBFR32 *`
unfoldable pub reference : Buffer → Ptr
reference b = b.buffer

module _ {W : Type 0} ⦃f : Fml W⦄ where
  unfoldable pub print : Method Buffer W (Unit {0})
  print = do p ← this (λ b. b.buffer); does (f.fprint32 p)

  -- `print ( char *buffer )`: what the call leaves there.
  unfoldable pub print_to : Method Buffer W Text
  print_to b w = let (text, w') = f.fsprint32 b.buffer w in (ok text, b, w')
