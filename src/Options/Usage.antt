-- ===== src/Options/Usage.antt =====
-- utls/options.hpp: the texts that say how a program is called.
use cpp_atmi.Prelude.{Option, none, some, [], ◌∷◌, ◌++◌}
use cpp_atmi.Atmi.Texts.{Text, bytes}
use cpp_atmi.Options.{Options, Process}

module _ {W : Type 0} ⦃p : Process W⦄ where
  -- `std::cout << line << std::endl`
  unfoldable pub say : Text → W → W
  say line w = p.cout (line ++ 10 ∷ []) w

  -- `options::options_usage`, which that of import_options calls too.
  unfoldable pub options_usage : W → W
  unfolding say
  options_usage w₀ =
      let w₁ = say (bytes "-u Tuxedo user") w₀ in
      let w₂ = say (bytes "-p Tuxedo user's application password") w₁ in
      let w₃ = say (bytes "-s Tuxedo system (DOMAIN) password") w₂ in
      let w₄ = say (bytes "-g group to use") w₃ in
      let w₅ = say (bytes "-b buffer size (in bytes defaults to 1024)") w₄ in
      say (bytes "-v print version info and exit") w₅

  unfoldable pub queue_usage : W → W
  unfolding say
  queue_usage w = options_usage (say (bytes "-q queue and queue space") w)

  unfoldable pub export_usage : W → W
  unfolding say
  export_usage w =
      say (bytes "-d start program in daemon mode")
        (say (bytes "-o dump messages in this file") (options_usage w))

  unfoldable pub import_usage : W → W
  import_usage w = options_usage w

  -- `usage`, with the most derived `options_usage` of the object.
  unfoldable pub usage : (W → W) → Text → Option Text → Options → W → W
  unfolding say
  usage options_usage pname details c w =
      let w₁ = say (bytes "usage : " ++ pname ++ bytes " " ++ c.arguments_usage) w in
      options_usage (elim details [ none ↦ w₁ | some d ↦ say d (say [] w₁) ])
