-- ===== src/Buffer.antt =====
-- include/atmi/buffer.hpp and src/buffer.cpp: the class `buffer`, a typed buffer of fields.
pub mod Types
pub mod References
pub mod Fields
use cpp_atmi.Prelude.{
  ℕ, ◌+◌, ◌-◌, ◌*◌, ◌%◌, ◌^◌, ◌==◌, String, Bool, true, false, Option, none, some, List, [], ◌∷◌,
  ◌&&◌, if◌then◌else◌,
}
use cpp_atmi.Prelude.Int.{ℤ, pos, negsuc, minus_one, is_neg, eqb}
use cpp_atmi.Prelude.Lists.{take}
use cpp_atmi.Atmi.Codes.{Constants}
use cpp_atmi.Atmi.Texts.{Text, Texts, Arg, num, str, bytes, c_str}
use cpp_atmi.Atmi.Calls.{Atmi, Ptr}
use cpp_atmi.Atmi.Fml.{Fml}
use cpp_atmi.Exceptions.{atmi_exception, buffer_exception}
use cpp_atmi.Method.{
  Method, Outcome, ok, err, pure, throw, this, assign, reads, calls, ◌>>=◌, ◌>>◌, on, try_catch,
  when,
}
use cpp_atmi.Tuxedo.{Tuxedo, construct, allocate, free}
use cpp_atmi.Tuxedo

pub record Buffer : Type 0 where
  pub tuxedo : Tuxedo
  pub open tuxedo use *
  pub buffer : Ptr
  pub allocated : Bool
  pub extent : ℕ

abbrev pub super : {W A : Type 0} → Method Tuxedo W A → Method Buffer W A
super m = on (λ b. b.tuxedo) (λ t b. record b { tuxedo = t }) m

-- The number of values of a `size_t`, and a `long` or an `int` as one.
abbrev pub sizes : ⦃k : Constants⦄ → ℕ
sizes ⦃k⦄ = 2 ^ (k.long_bits + 1)

abbrev pub to_size : ⦃k : Constants⦄ → ℤ → ℕ
to_size (pos n) = n
to_size (negsuc n) = sizes - (n + 1)

unfoldable pub text_eqb : Text → Text → Bool
text_eqb [] [] = true
text_eqb [] (d ∷ ds) = false
text_eqb (c ∷ cs) [] = false
text_eqb (c ∷ cs) (d ∷ ds) = (c == d) && text_eqb cs ds

-- The characters that `strncmp ( ..., 8 )` compares.
unfoldable pub compared : Text → Text
compared s = take 8 s

module _ {W : Type 0} ⦃a : Atmi W⦄ ⦃t : Texts⦄ ⦃f : Fml W⦄ where
  get_type : Ptr → Method Buffer W (ℤ × Text)
  get_type p b w = let (rc, type, w') = a.tptypes p w in (ok (rc, type), b, w')

  -- `is_fml32_buffer`: the type of the buffer is compared with `strncmp`, 8 characters of it.
  unfoldable pub is_fml32_buffer : Ptr → Method Buffer W Bool
  unfolding get_type
  is_fml32_buffer p = do
    r ← get_type p
    e ← reads a.tperrno
    if eqb r.0 minus_one
        then throw (atmi_exception (t.tpstrerror e) [])
        else pure (text_eqb (compared f.fmltype32) (compared (c_str r.1)))

  unfoldable pub set_buffer : Ptr → Method Buffer W (Unit {0})
  set_buffer p = do
    fits ← is_fml32_buffer p
    if fits
        then assign (λ b. record b { buffer = p })
        else throw (atmi_exception (bytes "This buffer reference is not of type FMLTYPE32.") [])

  -- What the two constructors that allocate do with the size.
  unfoldable pub new_sized : ⦃k : Constants⦄ → ℕ → W → Outcome (Unit {0}) × Buffer × W
  new_sized size w =
      let (base, w') = construct w in
      let b : Buffer = record { tuxedo = base; buffer = none; allocated = true; extent = size } in
      (super (allocate f.fmltype32 none size) >>= λ p. assign (λ b. record b { buffer = p })) b w'

  -- `buffer ()`
  unfoldable pub new : ⦃k : Constants⦄ → W → Outcome (Unit {0}) × Buffer × W
  unfolding new_sized
  new w = new_sized 1024 w

  -- The destructor.
  unfoldable pub destroy : Buffer → W → W
  destroy b w =
      let (r, c, w') = (if b.allocated then free b.buffer else pure tt) b.tuxedo w in
      Tuxedo.destroy c w'

  module _ ⦃k : Constants⦄ where
    abbrev pub size : Buffer → W → ℕ
    size b w = elim b.buffer [ none ↦ 0 | some p ↦ to_size (f.fsizeof32 (some p) w) ]

    abbrev pub used : Buffer → W → ℕ
    used b w = elim b.buffer [ none ↦ 0 | some p ↦ to_size (f.fused32 (some p) w) ]

    abbrev pub unused : Buffer → W → ℕ
    unused b w = elim b.buffer [ none ↦ 0 | some p ↦ to_size (f.funused32 (some p) w) ]

    unfoldable pub resize : ℕ → Method Buffer W (Unit {0})
    resize extent = do
      assign (λ b. record b { extent = extent })
      p ← this (λ b. b.buffer)
      q ← super (Tuxedo.extend p extent)
      assign (λ b. record b { buffer = q })

    unfoldable pub pack : Method Buffer W (Unit {0})
    unfolding resize
    pack b w = resize (used b w) b w

    -- The new extent is the old size and the old extent.
    unfoldable pub extend : Method Buffer W (Unit {0})
    unfolding resize
    extend b w = resize ((size b w + b.extent) % sizes) b w

    abbrev pub print_buffer_size : Buffer → W → ℕ
    print_buffer_size b w = (to_size (f.fnum32 b.buffer w) * k.maxtident + used b w) % sizes

  -- `occurences ( const field &f )`, of a field with that id and name.
  unfoldable pub occurences : ℤ → Text → Method Buffer W ℤ
  occurences id name = do
    p ← this (λ b. b.buffer)
    rc ← calls (f.foccur32 p id)
    e ← reads f.ferror32
    if is_neg rc
        then throw (
            buffer_exception e (bytes "Get field occurences in buffer failed for %s (%d).")
              (str name ∷ num id ∷ []))
        else pure rc

  unfoldable pub chksum : Method Buffer W ℤ
  chksum = do
    p ← this (λ b. b.buffer)
    sum ← calls (f.fchksum32 p)
    e ← reads f.ferror32
    if is_neg sum
        then throw (buffer_exception e (bytes "Fchksum call on buffer failed.") [])
        else pure sum

  -- `operator==`: the other buffer is `other`, which stays as it is.
  unfoldable pub equal : Buffer → Method Buffer W Bool
  unfolding chksum
  equal other = do
    own ← chksum
    on (λ b. other) (λ o b. b) chksum >>= λ theirs. pure (eqb own theirs)

  -- `operator=`, of a buffer or of a reference: the destination is the object.
  unfoldable pub copy : Ptr → Method Buffer W (Unit {0})
  copy from = do
    p ← this (λ b. b.buffer)
    rc ← calls (f.fcpy32 p from)
    e ← reads f.ferror32
    when (eqb rc minus_one) (throw (buffer_exception e (bytes "FCOPY32 failed.") []))
