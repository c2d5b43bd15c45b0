-- ===== src/Tuxedo/Reports.antt =====
-- How `allocate`, `extend`, `begin`, `commit` and `abort` report a failure.
use cpp_atmi.Prelude.{is_none, ℕ, ◌≡◌, Bool, true, false, Option, arith}
use cpp_atmi.Prelude.Int.{ℤ, is_neg}
use cpp_atmi.Atmi.Texts.{Text, Texts}
use cpp_atmi.Atmi.Calls.{Ptr, Atmi}
use cpp_atmi.Exceptions.{tuxedo, tperr, tuxedo_exception}
use cpp_atmi.Method.{Outcome, ok, err}
use cpp_atmi.Tuxedo.{Tuxedo, allocate, extend, begin, commit, abort}

module _ {W : Type 0} ⦃a : Atmi W⦄ where
  -- The object remembers tperrno and its detail as the call left them, and nothing else of it
  -- changes.
  pub record Remembers (c c' : Tuxedo) (w : W) : Type 0 where
    pub number : c'.errorno ≡ a.tperrno w
    pub detail : c'.errornodetail ≡ a.tperrordetail w
    pub flags : c'.flags ≡ c.flags
    pub context : c'.context ≡ c.context
    pub catd : c'.catd ≡ c.catd

  -- A call that returned `rc`: it throws tperrno if `failed`, and returns `rc` otherwise.
  abbrev pub Answers : {A : Type 0} → Bool → A → W → Outcome A → Type 0
  Answers failed rc w (ok v) = (failed ≡ false) × (v ≡ rc)
  Answers failed rc w (err e) =
      (failed ≡ true) × (e.error ≡ tperr (a.tperrno w)) × (e.class ≡ tuxedo)

  -- A method that makes one library call, with result `rc` and the world `w'` after it.
  abbrev pub Reports : {A : Type 0} → Tuxedo → Bool → A × W → Outcome A × Tuxedo × W → Type 0
  Reports c failed (rc, w') (r, c', w'') = Answers failed rc w' r × Remembers c c' w' × (w'' ≡ w')

module _ {W : Type 0} ⦃a : Atmi W⦄ ⦃t : Texts⦄ (c : Tuxedo) (w : W) where
  pub demarcation-Reports :
      (timeout : ℤ)
      → Reports c (is_neg (a.tpbegin timeout w).0) (a.tpbegin timeout w) (begin timeout c w)
        × Reports c (is_neg (a.tpcommit w).0) (a.tpcommit w) (commit c w)
        × Reports c (is_neg (a.tpabort w).0) (a.tpabort w) (abort c w)
  unfolding begin commit abort tuxedo_exception
  demarcation-Reports timeout = (ground arith, ground arith, ground arith)

  -- `allocate` and `extend` throw tperrno exactly if their one call returns NULL, and return its
  -- result otherwise. The object remembers tperrno and its detail as the call left them.
  pub memory-Reports :
      (type : Text) (subtype : Option Text) (buff : Ptr) (size : ℕ)
      → Reports c
          (is_none (a.tpalloc type subtype size w).0)
          (a.tpalloc type subtype size w)
          (allocate type subtype size c w)
        × Reports c
            (is_none (a.tprealloc buff size w).0)
            (a.tprealloc buff size w)
            (extend buff size c w)
  unfolding allocate extend tuxedo_exception
  memory-Reports type subtype buff size = (ground arith, ground arith)
