-- ===== src/Transaction/Descriptors.antt =====
-- The call descriptor that a transaction keeps between `acall`, `reply` and `cancel`.
use cpp_atmi.Prelude.{
  ℕ, String, ◌≡◌, ◌≢◌, ◌⊎◌, true, false, if◌then◌else◌, Option, none, some, [], ◌∷◌, arith,
}
use cpp_atmi.Prelude.Int.{ℤ, pos, minus_one, is_neg, eqb, eqb_iff}
use cpp_atmi.Atmi.Texts.{Text, Texts, str, bytes}
use cpp_atmi.Atmi.Calls.{Atmi, Services, Ptr}
use cpp_atmi.Method.{Outcome, ok, err}
use cpp_atmi.Tuxedo.{Tuxedo, switch_context}
use cpp_atmi.Tuxedo.Raises.{Handles, handle_tperrno-Handles}
use cpp_atmi.Transaction.{
  Transaction, Caller, check, record_descriptor, acall, get_reply, finish_reply, reply, cancel,
}

-- What `reply` leaves of the two descriptors: `own` is that of the object, `cd` that of the
-- caller, and `d` the one that the call stored.
abbrev pub Answered : ℤ → ℤ → Option ℤ → Option ℤ → ℤ → Type 0
Answered d own none cd' own' = (cd' ≡ none) × (own' ≡ d)
Answered d own (some cd) cd' own' =
    (cd' ≡ some d) × (d ≡ own → own' ≡ pos 0) × (d ≢ own → own' ≡ own)

abbrev pub asked : Option ℤ → ℤ → ℤ
asked none own = own
asked (some cd) own = cd

module _ {W : Type 0} ⦃a : Atmi W⦄ ⦃t : Texts⦄ where
  -- What a method makes of the result `rc` of its call, which left the world `w`.
  abbrev pub Settles : ℤ → W → Outcome ℤ → Type 0
  Settles rc w o =
      ((is_neg rc ≡ false) × (o ≡ ok rc)) ⊎ ((is_neg rc ≡ true) × Handles (a.tperrno w) w o)

  pub check-Settles :
      (msg : String) (rc : ℤ) (x : Transaction) (w : W)
      → let (o, x', w') = check msg rc x w in Settles rc w o × (x' ≡ x) × (w' ≡ w)
  unfolding check
  check-Settles msg rc x w =
      ground
        (arith, handle_tperrno-Handles (a.tperrno w) (bytes msg) (str x.service ∷ []) x.tuxedo w)

  module _ ⦃s : Services W⦄ where
    -- The switch of context threw, and `acall` throws the same without a call and keeps no
    -- descriptor; or it did not: what `acall` returns or throws is settled by `tpacall`, and
    -- the descriptor is the one that the call returned, or -1 if the call failed.
    abbrev pub Sent :
        Ptr → ℕ → Text → Outcome (Unit {0}) × Tuxedo × W → Outcome ℤ × Transaction × W → Type 0
    Sent idata ilen service (err e, base, w₁) (r, x', w') =
        (r ≡ err e) × (x'.call_descriptor ≡ minus_one) × (w' ≡ w₁)
    Sent idata ilen service (ok v, base, w₁) (r, x', w') =
        let (rc, w₂) = s.tpacall service idata ilen base.flags w₁ in
        Settles rc w₂ r × (w' ≡ w₂) × (x'.call_descriptor ≡ (if is_neg rc then minus_one else rc))

    -- `acall` enters its context, and throws what that throws without a call and keeping -1 as
    -- its descriptor. Otherwise what it returns or throws is settled by `tpacall`, and it keeps
    -- the descriptor that the call returned, or -1 if the call failed.
    pub acall-Sent :
        (idata : Ptr) (ilen : ℕ) (x : Transaction) (w : W)
        → Sent idata ilen x.service (switch_context x.tuxedo w) (acall idata ilen x w)
    unfolding acall record_descriptor
    acall-Sent idata ilen x w =
        let x₀ : Transaction = record x { call_descriptor = minus_one } in
        let (o, base, w₁) = switch_context x.tuxedo w in
        let (rc, w₂) = s.tpacall x.service idata ilen base.flags w₁ in
        let x₂ : Transaction = record x₀ {
          tuxedo = record base { errorno = a.tperrno w₂; errornodetail = a.tperrordetail w₂ };
        } in
        ground (arith, check-Settles "TPACALL to %s failed." rc x₂ w₂)

    finish_reply-Settles :
        (rc : ℤ) (x : Caller) (w : W)
        → let (r, x', w') = finish_reply rc x w in
          Settles rc w r
          × (x'.transaction.call_descriptor ≡ x.transaction.call_descriptor)
          × (x'.buf ≡ x.buf)
          × (x'.len ≡ x.len)
          × (w' ≡ w)
    unfolding finish_reply
    finish_reply-Settles rc x w =
        let x₁ : Transaction = record x.transaction {
          tuxedo = record x.transaction.tuxedo {
            errorno = a.tperrno w;
            errornodetail = a.tperrordetail w;
          };
        } in
        ground (arith, check-Settles "TPGETREPLY from %s failed." rc x₁ w)

    -- `reply` asks for the descriptor of the caller, or for the kept one if there is no other,
    -- and its result is settled by `tpgetrply`, whose reply and length the caller finds in its
    -- variables. With no descriptor of the caller, the kept one is afterwards what tpgetrply
    -- stored. With one, the caller finds what tpgetrply stored in it, and the kept one is reset
    -- to 0 if it is equal to that, whether the call failed or not, and as it was otherwise.
    pub reply-Settles :
        (cd : Option ℤ) (x : Caller) (w : W)
        → let own = x.transaction.call_descriptor in
          let (d, g) = s.tpgetrply (asked cd own) x.buf x.len x.transaction.flags w in
          let (cd', r, x', w') = reply cd x w in
          Settles g.rc g.world r
          × Answered d own cd cd' x'.transaction.call_descriptor
          × (x'.buf ≡ g.buf)
          × (x'.len ≡ g.len)
          × (w' ≡ g.world)
    unfolding reply get_reply
    reply-Settles none x w =
        let (d, g) = s.tpgetrply x.transaction.call_descriptor x.buf x.len x.transaction.flags w in
        let x₁ : Caller = record x {
          transaction = record x.transaction { call_descriptor = d };
          buf = g.buf;
          len = g.len;
        } in
        ground (arith, finish_reply-Settles g.rc x₁ g.world)
    reply-Settles (some cd) x w =
        let (d, g) = s.tpgetrply cd x.buf x.len x.transaction.flags w in
        let own = x.transaction.call_descriptor in
        let x₁ : Caller = record x {
          transaction = record x.transaction { call_descriptor = if eqb d own then pos 0 else own };
          buf = g.buf;
          len = g.len;
        } in
        ground (arith, finish_reply-Settles g.rc x₁ g.world, eqb_iff d own)

    -- `cancel` cancels the given descriptor, or the kept one for 0; it forgets neither.
    pub cancel-Settles :
        (cd : ℤ) (x : Transaction) (w : W)
        → let target = if eqb cd (pos 0) then x.call_descriptor else cd in
          let (rc, w₁) = s.tpcancel target w in
          let (r, x', w') = cancel cd x w in
          Settles rc w₁ r × (x'.call_descriptor ≡ x.call_descriptor) × (w' ≡ w₁)
    unfolding cancel
    cancel-Settles cd x w =
        let (rc, w₁) = s.tpcancel (if eqb cd (pos 0) then x.call_descriptor else cd) w in
        let base : Tuxedo = record x.tuxedo {
          errorno = a.tperrno w₁;
          errornodetail = a.tperrordetail w₁;
        } in
        ground (
          arith,
          handle_tperrno-Handles (a.tperrno w₁) (bytes "TPCANCEL of a call to %s failed.") [] base
              w₁,
        )
