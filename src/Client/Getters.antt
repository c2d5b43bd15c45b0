-- ===== src/Client/Getters.antt =====
-- include/atmi/abstract_client.hpp: what a client gives away, and the `run` that it is born with.
use cpp_atmi.Prelude.{List}
use cpp_atmi.Prelude.Int.{ℤ, minus_one}
use cpp_atmi.Atmi.Texts.{Text, c_str}
use cpp_atmi.Client.{AbstractClient}

unfoldable pub name : AbstractClient → Text
name c = c_str c.name

unfoldable pub tuxconfig : AbstractClient → Text
tuxconfig c = c_str c.tuxconfig

-- `run ( argc, argv )`, where it is not overridden.
unfoldable pub run : List Text → AbstractClient → ℤ
run argv c = minus_one
