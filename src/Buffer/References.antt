-- ===== src/Buffer/References.antt =====
-- src/buffer.cpp: a buffer on memory that may belong to somebody else.
use cpp_atmi.Prelude.{ℕ, Bool, false, ◌≡◌, refl, arith, []}
use cpp_atmi.Prelude.Int.{ℤ}
use cpp_atmi.Atmi.Codes.{Constants}
use cpp_atmi.Atmi.Texts.{Texts, bytes}
use cpp_atmi.Atmi.Calls.{Atmi, Ptr, CallInfos}
use cpp_atmi.Atmi.Fml.{Fml}
use cpp_atmi.Exceptions.{atmi_exception}
use cpp_atmi.Method.{Method, Outcome, ok, err, throw, this, assign, reads, does, ◌>>=◌}
use cpp_atmi.Tuxedo.{construct}
use cpp_atmi.Tuxedo
use cpp_atmi.Buffer.{Buffer, is_fml32_buffer, set_buffer, destroy}

module _ {W : Type 0} where
  unfoldable pub set_extent : ℕ → Method Buffer W (Unit {0})
  set_extent extent = assign (λ b. record b { extent = extent })

  unfoldable pub set_handling_memory : Bool → Method Buffer W (Unit {0})
  set_handling_memory handling = assign (λ b. record b { allocated = handling })

  unfoldable pub is_handling_memory : Method Buffer W Bool
  is_handling_memory = this (λ b. b.allocated)

  unfoldable pub get_buffer : Method Buffer W Ptr
  get_buffer = this (λ b. b.buffer)

  unfoldable pub field_count : ⦃f : Fml W⦄ → Method Buffer W ℤ
  field_count ⦃f⦄ = this (λ b. b.buffer) >>= λ p. reads (f.fnum32 p)

  unfoldable pub append : ⦃t : Texts⦄ → Method Buffer W (Unit {0})
  append = throw (atmi_exception (bytes "Method append is not implemented yet !!??;") [])

module _ {W : Type 0} ⦃a : Atmi W⦄ ⦃t : Texts⦄ ⦃f : Fml W⦄ where
  -- `buffer ( FBFR32 *b )`: `old` and `extent` are what the memory held, which are not initialised
  -- here. A constructor that throws destroys the base.
  unfoldable pub new_reference : ⦃k : Constants⦄ → Ptr → Ptr → ℕ → W → Outcome Buffer × W
  unfolding construct set_buffer
  new_reference p old extent w =
      let (base, w') = construct w in
      let (r, b, w'') =
        set_buffer p (record { tuxedo = base; buffer = old; allocated = false; extent = extent })
          w' in
      elim r [ ok v ↦ (ok b, w'') | err e ↦ (err e, Tuxedo.destroy b.tuxedo w'') ]

  -- `get_call_info ( callinfo )`, where `own` is the buffer of `callinfo`: its `set_buffer` is given
  -- what tpgetcallinfo stored.
  unfoldable pub get_call_info : ⦃c : CallInfos W⦄ → Buffer → Method Buffer W Buffer
  unfolding set_buffer
  get_call_info ⦃c⦄ own b w =
      let (rc, cib, w₁) = c.tpgetcallinfo b.buffer own.buffer w in
      let (r, own', w₂) = set_buffer cib own w₁ in
      elim r [ ok v ↦ (ok own', b, w₂) | err e ↦ (err e, b, w₂) ]

  -- `set_call_info ( callinfo )`: the result of tpsetcallinfo is dropped.
  unfoldable pub set_call_info : ⦃c : CallInfos W⦄ → Ptr → Method Buffer W (Unit {0})
  set_call_info ⦃c⦄ info = do p ← this (λ b. b.buffer); does (λ w. (c.tpsetcallinfo p info w).1)

  set_buffer-allocated :
      (p : Ptr) (b : Buffer) (w : W) → (set_buffer p b w).1.allocated ≡ b.allocated
  unfolding set_buffer is_fml32_buffer
  set_buffer-allocated p b w = ground arith

  -- A buffer on the memory of somebody else leaves that memory alone when it is destroyed.
  abbrev Spares : Outcome Buffer × W → Type 0
  Spares (ok b, w) = (v : W) → destroy b v ≡ Tuxedo.destroy b.tuxedo v
  Spares (err e, w) = Unit {0}

  pub new_reference-Spares :
      ⦃k : Constants⦄ (p old : Ptr) (extent : ℕ) (w : W) → Spares (new_reference p old extent w)
  unfolding new_reference construct destroy
  new_reference-Spares p old extent w =
      let (base, w') = construct w in
      let b₀ : Buffer = record {
        tuxedo = base;
        buffer = old;
        allocated = false;
        extent = extent;
      } in
      go (set_buffer p b₀ w') (set_buffer-allocated p b₀ w')
    where
      go :
          (out : Outcome (Unit {0}) × Buffer × W)
          → out.1.allocated ≡ false
          → Spares (
              let (r, b, w'') = out in
              elim r [ ok v ↦ (ok b, w'') | err e ↦ (err e, Tuxedo.destroy b.tuxedo w'') ])
      go (ok v, b, w'') h = λ u. rw h refl
      go (err e, b, w'') h = tt
