-- ===== src/Tests/Settings.antt =====
-- The theorems on flags and on the texts of exceptions at concrete inputs.
use Prim.Native.Nat.{bit_and}
use cpp_atmi.Prelude.{◌∷◌, ℕ, ◌≡◌, refl, true, some, [], arith, ap}
use cpp_atmi.Prelude.Bits.{digit, digit-bit_and, digit-zero}
use cpp_atmi.Method.{ok}
use cpp_atmi.Tuxedo.Masks.{IsDisjoint, IsWithin, has}
use cpp_atmi.Queue.{Queue}
use cpp_atmi.Queue.Settings.{qos_flags, is_message_waiting, set_quality_of_service, initialise}
use cpp_atmi.Queue.Modes.{
  IsFlagTable, RepliesTo, Chooses, set_quality_of_service-Chooses, initialise-has,
}
use cpp_atmi.Tests.Domain.{
  World, constants, texts, atmi, queueing, start, queue, first_queue, space,
}

IsDisjoint-of : (a b : ℕ) → bit_and a b ≡ 0 → IsDisjoint a b
IsDisjoint-of a b h i = omega (arith, digit-bit_and a b i, ap (λ n. digit n i) h, digit-zero i)

pub table : IsFlagTable
table = record {
  none_set = refl;
  wait_fits = omega arith;
  wait_bit = ground arith;
  reply_fits = omega arith;
  reply_bit = ground arith;
  qos_fits = omega arith;
  qos_bit = ground arith;
  wait_reply = IsDisjoint-of 1 2 refl;
  reply_wait = IsDisjoint-of 2 1 refl;
  wait_qos = IsDisjoint-of 1 12 refl;
  qos_wait = IsDisjoint-of 12 1 refl;
  reply_qos = IsDisjoint-of 2 12 refl;
  qos_reply = IsDisjoint-of 12 2 refl;
}

abbrev first : Queue
first = queue first_queue

abbrev world : World
world = start []

set_quality_of_service-Chooses_example :
    let out = set_quality_of_service {W = World} 2 first world in
    Chooses table first world (omega arith) 2 out
    × (is_message_waiting out.1 ≡ is_message_waiting first)
    × (has out.1.qctl.flags 2 ≡ has 1 2)
set_quality_of_service-Chooses_example =
    set_quality_of_service-Chooses table first world (omega arith) 2

initialise-has_example :
    let (r, q', w') =
      initialise (some space) (some first_queue) (some (82 ∷ 81 ∷ [])) first world in
    (r ≡ ok tt)
    × (is_message_waiting q' ≡ true)
    × (has q'.qctl.flags qos_flags ≡ true)
    × (q'.qctl.delivery_qos ≡ 1)
    × (q'.qctl.reply_qos ≡ 1)
    × (has q'.qctl.flags 2 ≡ true)
    × (q'.qspace ≡ some space)
    × (q'.name ≡ some first_queue)
    × RepliesTo (some (82 ∷ 81 ∷ [])) q'
initialise-has_example =
    initialise-has table (some space) (some first_queue) (some (82 ∷ 81 ∷ [])) first world
      (ground arith, omega arith)

IsWithin-of : (a b : ℕ) → bit_and a b ≡ a → IsWithin a b
IsWithin-of a b h i = omega (arith, digit-bit_and a b i, ap (λ n. digit n i) h)
