-- ===== src/QueueStream.antt =====
-- `queue_stream` of include/atmi/queue.hpp, and src/queue_stream.cpp: writing the messages of a
-- queue to a stream, and putting the lines of a stream into a queue.
pub mod Export
pub mod Import
pub mod Server
pub mod Switches
pub mod RoundTrip
pub mod Moves
use cpp_atmi.Prelude.{ℕ, Bool, true, false}
use cpp_atmi.Atmi.Codes.{Constants}
use cpp_atmi.Atmi.Calls.{Atmi}
use cpp_atmi.Tuxedo.{Tuxedo, construct}
use cpp_atmi.Method.{Method, assign, ◌>>◌}

-- `_queue` points to a queue that the caller owns: the operators carry it beside the stream.
pub record QueueStream : Type 0 where
  pub tuxedo : Tuxedo
  pub open tuxedo use *
  pub count : ℕ
  pub buffer_size : ℕ

-- QS_BUFFER_SIZE
abbrev pub qs_buffer_size : ℕ
qs_buffer_size = 1024

unfoldable pub set_buffer_size : {W : Type 0} → ℕ → Method QueueStream W (Unit {0})
set_buffer_size bs = assign (λ s. record s { buffer_size = bs })

module _ {W : Type 0} ⦃k : Constants⦄ where
  unfoldable pub encode_base64 : Bool → Method QueueStream W (Unit {0})
  encode_base64 true = assign (λ s. record s { tuxedo = record s.tuxedo { flags = k.tpnoflags } })
  encode_base64 false =
      assign (λ s. record s { tuxedo = record s.tuxedo { flags = k.tpex_string } })

  unfoldable pub new_sized : ⦃a : Atmi W⦄ → ℕ → W → QueueStream × W
  unfolding construct encode_base64
  new_sized bs w =
      let (base, w') = construct w in
      let (r, c, w'') =
        encode_base64 false (record { tuxedo = base; count = 0; buffer_size = bs }) w' in
      (c, w'')

  unfoldable pub new : ⦃a : Atmi W⦄ → W → QueueStream × W
  unfolding new_sized
  new w = new_sized qs_buffer_size w
