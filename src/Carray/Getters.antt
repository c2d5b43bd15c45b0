-- ===== src/Carray/Getters.antt =====
-- include/atmi/carray_field.hpp: what a carray gives away, and its destructor.
use cpp_atmi.Prelude.{ℕ}
use cpp_atmi.Carray.{Carray, free_ressources}

unfoldable pub length : Carray → ℕ
length c = c.length

unfoldable pub buffer_size : Carray → ℕ
buffer_size c = c.buffer_size

unfoldable pub destroy : Carray → Carray
unfolding free_ressources
destroy c = free_ressources c
