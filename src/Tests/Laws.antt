-- ===== src/Tests/Laws.antt =====
-- The example domain keeps the promises that the theorems ask for.
use cpp_atmi.Prelude.{◌<◌, ◌≢◌, List, false, Option, none, some, ℕ, ◌≡◌, refl, [], ◌∷◌, arith}
use cpp_atmi.Prelude.Lists.{length, take, drop, length-append, length-drop}
use cpp_atmi.Atmi.Texts.{Text}
use cpp_atmi.Atmi.Calls.{Ptr, Qctl}
use cpp_atmi.Prelude.Int.{is_neg}
use cpp_atmi.QueueStream.Server.{View, kept, IsServer, IsReliable, IsAccepting}
use cpp_atmi.Tuxedo.Contexts.{IsContextual}
use cpp_atmi.Field.Store.{IsStore, IsBounded}
use cpp_atmi.Tests.Domain.{
  find, at, take_first, size_of, World, constants, texts, atmi, services, queueing, fml,
}

abbrev pub view : World → View
view w = record { contents = w.contents; saved = w.saved; pending = w.pending }

abbrev pub form : World → Ptr → ℕ → Text
form w p n = w.message

take-all : (m : Text) → take (length m) m ≡ m
take-all [] = refl
take-all (c ∷ m) = ground (arith, take-all m)

size_of-empty : (m : Text) → (size_of m ≡ 0 → m ≡ []) × (0 < size_of m → m ≢ [])
size_of-empty [] = ground arith
size_of-empty (c ∷ m) = ground arith

taken_first :
    (ms : List Text) (ctl : Qctl) (p : Ptr) (n : ℕ) (w : World)
    → w.contents ≡ ms
    → let (ctl', r) = take_first ms ctl p n w in
      is_neg r.rc ≡ false
      → ((view w).contents ≡ form r.world r.buf r.len ∷ (view r.world).contents)
        × ((view r.world).saved ≡ kept (view w) (view r.world).contents)
        × ((view r.world).pending ≡ (view w).pending)
        × (r.len ≡ 0 → form r.world r.buf r.len ≡ [])
        × (0 < r.len → form r.world r.buf r.len ≢ [])
taken_first [] ctl p n w h = ground arith
taken_first (m ∷ ms) ctl p n w h = ground (arith, h, size_of-empty m)

pub server : (qspace queue : Text) (flags : ℕ) → IsServer qspace queue flags view form
server qspace queue flags = record {
  nomsg_neg = refl;
  nomsg_other = ground arith;
  allocated = λ type sub n w. refl;
  freed = λ p w. refl;
  got_context = λ w. refl;
  put_context = λ ctxt w. refl;
  begun = λ timeout w h. ground (arith, h);
  begun_form = λ timeout w p n. ground arith;
  committed = λ w h. ground (arith, h);
  aborted = λ w h. ground (arith, h);
  context_form = λ w ctxt p n. (refl, refl);
  taken = λ ctl p n f w. taken_first w.contents ctl p n w refl;
  waits = λ ctl p n f w. ground arith;
  refused = λ ctl p n f w. ground arith;
  exported = λ p n ostr olen w. ground (arith, take-all w.message);
  added = λ ctl p n f w. ground arith;
  imported = λ line p n w. ground arith;
}

pub reliable : (qspace queue : Text) (flags : ℕ) → IsReliable qspace queue flags view form
reliable qspace queue flags = record {
  alloc_ok = λ type sub n w. refl;
  begin_ok = λ timeout w idle. ground (arith, idle);
  commit_ok = λ w inside. ground (arith, inside);
  get_ok = λ w. refl;
  put_ok = λ ctxt w. refl;
  found = λ ctl p n f w. ground arith;
  empty = λ ctl p n f w. ground arith;
  export_ok = λ p n ostr olen w. ground arith;
  export_small = λ p n ostr olen w. ground arith;
}

pub accepting : (qspace queue : Text) (flags : ℕ) → IsAccepting World qspace queue flags
accepting qspace queue flags = record {
  placed = λ ctl p n f w. refl;
  understood = λ line p n w. refl;
}

pub contextual : IsContextual (λ (w : World). w.current)
contextual = record { got = λ w h. (refl, refl); put = λ ctxt w h. refl }

pub store : IsStore (λ (w : World) p id. w.values)
store = record {
  added = λ p id v w whole. ground arith;
  counted = λ p id w. ground arith;
  got = λ p id i n buff v w other h fits room. ground (arith, h, fits);
  too_long = λ p id i n buff v w other h long. ground (arith, h, long);
  got_string = λ p id i v w s h. h;
  got_alloc = λ p id i v w other h. ground (arith, h);
}

filled :
    (v : Option Text) (buff : Text) (n : ℕ) (w : World) → length (find v buff n w).1 ≡ length buff
filled none buff n w = refl
filled (some v) buff n w =
    ground (arith, length-append v (drop (length v) buff), length-drop (length v) buff)

pub bounded : IsBounded World
bounded = record {
  filled = λ p id occ buff n w. filled (at occ w.values) buff n w;
  unfilled = λ p id occ buff n w h other. ground (arith, h, other);
  allocated = λ p id occ w. ground arith;
}
