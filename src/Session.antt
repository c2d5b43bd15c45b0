-- ===== src/Session.antt =====
-- Sequences of calls of a program on one queue object: the transactions of src/tuxedo.cpp around
-- the messages of src/queue.cpp.
pub mod Fifo
pub mod Views
pub mod Steps
pub mod Refines
use cpp_atmi.Prelude.{ℕ, List, [], ◌∷◌}
use cpp_atmi.Prelude.Int.{ℤ}
use cpp_atmi.Atmi.Codes.{Constants}
use cpp_atmi.Atmi.Texts.{Texts}
use cpp_atmi.Atmi.Calls.{Atmi, Queueing, Ptr}
use cpp_atmi.Method.{Method, pure, ◌>>=◌}
use cpp_atmi.Tuxedo.{begin, commit, abort}
use cpp_atmi.Queue.{Receiver, super, on_queue}
use cpp_atmi.Queue.Transfer.{enqueue, dequeue}

pub data Command : Type 0 where
  begins : ℤ → Command
  commits aborts takes : Command
  puts : Ptr → ℕ → Command

module _ {W : Type 0} ⦃a : Atmi W⦄ ⦃t : Texts⦄ ⦃k : Constants⦄ ⦃s : Queueing W⦄ where
  unfoldable pub perform : Command → Method Receiver W ℤ
  perform (begins timeout) = on_queue (super (begin timeout))
  perform commits = on_queue (super commit)
  perform aborts = on_queue (super abort)
  perform takes = dequeue
  perform (puts buf len) = on_queue (enqueue buf len)

  -- The first call that throws ends the program.
  unfoldable pub run : List Command → Method Receiver W (Unit {0})
  run [] = pure tt
  run (c ∷ cs) = perform c >>= λ rc. run cs
