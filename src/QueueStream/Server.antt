-- ===== src/QueueStream/Server.antt =====
-- A /Q queue seen from outside, and what the documentation of the calls promises of it.
use cpp_atmi.Prelude.{
  Bool, if◌then◌else◌, is_none, ◌≤◌, ℕ, ◌<◌, ◌≡◌, ◌≢◌, true, false, List, [], ◌∷◌, ◌++◌, Option,
  refl, ap,
}
use cpp_atmi.Prelude.Int.{ℤ, minus_one, is_neg}
use cpp_atmi.Prelude.Lists.{take, length}
use cpp_atmi.Atmi.Codes.{Constants, tpediagnostic, tpesvcfail, qmenomsg, tpelimit}
use cpp_atmi.Atmi.Texts.{Text}
use cpp_atmi.Tuxedo.Masks.{has}
use cpp_atmi.Atmi.Calls.{Atmi, Queueing, Ptr, Qctl}

-- The messages of the queue in their external form, oldest first: those that the transaction in
-- progress sees, those that are there whatever becomes of it, and whether there is a transaction in
-- progress. The external form of a message without data is empty.
pub record View : Type 0 where
  pub contents : List Text
  pub saved : List Text
  pub pending : Bool

-- No transaction is in progress, and all messages are there for good.
abbrev pub IsSettled : View → Type 0
IsSettled v = (v.pending ≡ false) × (v.saved ≡ v.contents)

-- What is there for good after a call that changed the messages to `ms`.
abbrev pub kept : View → List Text → List Text
kept v ms = if v.pending then v.saved else ms

-- The messages with data.
unfoldable pub with_data : List Text → List Text
with_data [] = []
with_data ([] ∷ ms) = with_data ms
with_data ((c ∷ cs) ∷ ms) = (c ∷ cs) ∷ with_data ms

module _ {W : Type 0} ⦃a : Atmi W⦄ ⦃s : Queueing W⦄ ⦃k : Constants⦄ where
  -- `form w p n` is the external form, under the flags of the stream, of the message of length
  -- `n` in the buffer `p`. Nothing is promised of calls that fail but what is said of them.
  pub record IsServer (qspace queue : Text) (flags : ℕ) (view : W → View)
      (form : W → Ptr → ℕ → Text) : Type 0 where
    pub nomsg_neg : is_neg k.qmenomsg_value ≡ true
    pub nomsg_other : k.qmenomsg_value ≢ minus_one
    pub allocated :
        (type : Text) (sub : Option Text) (n : ℕ) (w : W) → view (a.tpalloc type sub n w).1 ≡ view w
    pub freed : (p : ℕ) (w : W) → view (a.tpfree p w) ≡ view w
    pub got_context : (w : W) → view (a.tpgetctxt w).2 ≡ view w
    pub put_context : (ctxt : ℤ) (w : W) → view (a.tpsetctxt ctxt w).1 ≡ view w
    pub begun :
        (timeout : ℤ) (w : W)
        → is_neg (a.tpbegin timeout w).0 ≡ false
        → let v = view (a.tpbegin timeout w).1 in
          ((view w).pending ≡ false)
          × (v.contents ≡ (view w).contents)
          × (v.saved ≡ (view w).contents)
          × (v.pending ≡ true)
    pub begun_form :
        (timeout : ℤ) (w : W) (p : Ptr) (n : ℕ) → form (a.tpbegin timeout w).1 p n ≡ form w p n
    pub committed :
        (w : W)
        → is_neg (a.tpcommit w).0 ≡ false
        → let v = view (a.tpcommit w).1 in
          ((view w).pending ≡ true)
          × (v.contents ≡ (view w).contents)
          × (v.saved ≡ (view w).contents)
          × (v.pending ≡ false)
    pub aborted :
        (w : W)
        → is_neg (a.tpabort w).0 ≡ false
        → let v = view (a.tpabort w).1 in
          ((view w).pending ≡ true)
          × (v.contents ≡ (view w).saved)
          × (v.saved ≡ (view w).saved)
          × (v.pending ≡ false)
    pub context_form :
        (w : W) (ctxt : ℤ) (p : Ptr) (n : ℕ)
        → (form (a.tpgetctxt w).2 p n ≡ form w p n) × (form (a.tpsetctxt ctxt w).1 p n ≡ form w p n)
    -- A message is taken from the front of the queue; its length is 0 if it has no data.
    pub taken :
        (ctl : Qctl) (p : Ptr) (n f : ℕ) (w : W)
        → let (ctl', r) = s.tpdequeue qspace queue ctl p n f w in
          is_neg r.rc ≡ false
          → ((view w).contents ≡ form r.world r.buf r.len ∷ (view r.world).contents)
            × ((view r.world).saved ≡ kept (view w) (view r.world).contents)
            × ((view r.world).pending ≡ (view w).pending)
            × (r.len ≡ 0 → form r.world r.buf r.len ≡ [])
            × (0 < r.len → form r.world r.buf r.len ≢ [])
    -- TPQWAIT is an input of the call only.
    pub waits :
        (ctl : Qctl) (p : Ptr) (n f : ℕ) (w : W)
        → has (s.tpdequeue qspace queue ctl p n f w).0.flags k.tpqwait ≡ has ctl.flags k.tpqwait
    -- A refused call leaves the queue alone, and says QMENOMSG of an empty queue only.
    pub refused :
        (ctl : Qctl) (p : Ptr) (n f : ℕ) (w : W)
        → let (ctl', r) = s.tpdequeue qspace queue ctl p n f w in
          is_neg r.rc ≡ true
          → (view r.world ≡ view w)
            × (a.tperrno r.world ≢ tpesvcfail)
            × (a.tperrno r.world ≡ tpediagnostic
                → ctl'.diagnostic ≡ qmenomsg
                → (view w).contents ≡ [])
    pub exported :
        (p : Ptr) (n : ℕ) (ostr : Text) (olen : ℕ) (w : W)
        → let e = s.tpexport p n ostr olen flags w in
          (is_neg e.rc ≡ false → take e.olen e.ostr ≡ form w p n)
          × (view e.world ≡ view w)
          × (form e.world p n ≡ form w p n)
    -- A message is added at the end of the queue.
    pub added :
        (ctl : Qctl) (p : Ptr) (n f : ℕ) (w : W)
        → let (rc, ctl', w') = s.tpenqueue qspace queue ctl p n f w in
          (is_neg rc ≡ false
            → ((view w').contents ≡ (view w).contents ++ form w p n ∷ [])
              × ((view w').saved ≡ kept (view w) (view w').contents)
              × ((view w').pending ≡ (view w).pending))
          × (is_neg rc ≡ true
              → (view w' ≡ view w) × (a.tperrno w' ≢ tpesvcfail) × (ctl'.diagnostic ≢ qmenomsg))
    pub imported :
        (line : Text) (p : Ptr) (n : ℕ) (w : W)
        → let r = s.tpimport line (length line) p n flags w in
          (is_neg r.rc ≡ false → form r.world r.buf r.len ≡ line) × (view r.world ≡ view w)

  -- A domain in which nothing fails: every call that can succeed does. An export into a buffer
  -- that is too small says TPELIMIT.
  pub record IsReliable (qspace queue : Text) (flags : ℕ) (view : W → View)
      (form : W → Ptr → ℕ → Text) : Type 0 where
    pub alloc_ok :
        (type : Text) (sub : Option Text) (n : ℕ) (w : W)
        → is_none (a.tpalloc type sub n w).0 ≡ false
    pub begin_ok :
        (timeout : ℤ) (w : W) → (view w).pending ≡ false → is_neg (a.tpbegin timeout w).0 ≡ false
    pub commit_ok : (w : W) → (view w).pending ≡ true → is_neg (a.tpcommit w).0 ≡ false
    pub get_ok : (w : W) → is_neg (a.tpgetctxt w).0 ≡ false
    pub put_ok : (ctxt : ℤ) (w : W) → is_neg (a.tpsetctxt ctxt w).0 ≡ false
    pub found :
        (ctl : Qctl) (p : Ptr) (n f : ℕ) (w : W)
        → (view w).contents ≢ []
        → is_neg (s.tpdequeue qspace queue ctl p n f w).1.rc ≡ false
    -- Without TPQWAIT the call does not block on an empty queue.
    pub empty :
        (ctl : Qctl) (p : Ptr) (n f : ℕ) (w : W)
        → let (ctl', r) = s.tpdequeue qspace queue ctl p n f w in
          has ctl.flags k.tpqwait ≡ false
          → (view w).contents ≡ []
          → (is_neg r.rc ≡ true)
            × (a.tperrno r.world ≡ tpediagnostic)
            × (ctl'.diagnostic ≡ qmenomsg)
    pub export_ok :
        (p : Ptr) (n : ℕ) (ostr : Text) (olen : ℕ) (w : W)
        → length (form w p n) ≤ olen
        → is_neg (s.tpexport p n ostr olen flags w).rc ≡ false
    pub export_small :
        (p : Ptr) (n : ℕ) (ostr : Text) (olen : ℕ) (w : W)
        → let e = s.tpexport p n ostr olen flags w in
          is_neg e.rc ≡ true → (a.tperrno e.world ≡ tpelimit) × (olen ≤ e.olen)

-- A domain that takes every message: tpenqueue and tpimport succeed.
pub record IsAccepting (W : Type 0) ⦃s : Queueing W⦄ (qspace queue : Text) (flags : ℕ)
    : Type 0 where
  pub placed :
      (ctl : Qctl) (p : Ptr) (n f : ℕ) (w : W)
      → is_neg (s.tpenqueue qspace queue ctl p n f w).0 ≡ false
  pub understood :
      (line : Text) (p : Ptr) (n : ℕ) (w : W)
      → is_neg (s.tpimport line (length line) p n flags w).rc ≡ false

-- The lines of a file: each text with a newline behind it.
unfoldable pub lines : List Text → Text
lines [] = []
lines (m ∷ ms) = m ++ 10 ∷ lines ms

pub with_data-some : (m : Text) (ms : List Text) → m ≢ [] → with_data (m ∷ ms) ≡ m ∷ with_data ms
unfolding with_data
with_data-some [] ms h = absurd (h refl)
with_data-some (c ∷ cs) ms h = refl

pub with_data-append : (ms ns : List Text) → with_data (ms ++ ns) ≡ with_data ms ++ with_data ns
unfolding with_data
with_data-append [] ns = refl
with_data-append ([] ∷ ms) ns = with_data-append ms ns
with_data-append ((c ∷ cs) ∷ ms) ns = ap (λ l. (c ∷ cs) ∷ l) (with_data-append ms ns)

pub with_data-none : (m : Text) (ms : List Text) → m ≡ [] → with_data (m ∷ ms) ≡ with_data ms
unfolding with_data
with_data-none m ms h = rw h refl
