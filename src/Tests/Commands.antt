-- ===== src/Tests/Commands.antt =====
-- A command line of an export, read by a C library that keeps its promises.
use cpp_atmi.Prelude.{◌≡◌, refl, none, some, [], ◌∷◌, arith}
use cpp_atmi.Prelude.Int.{pos}
use cpp_atmi.Prelude.Lists.{get_elem?}
use cpp_atmi.Atmi.Texts.{Text, bytes}
use cpp_atmi.Options.{
  opt_u, opt_q, opt_d, Process, ExportOptions, export_options, set_export, parse,
}
use cpp_atmi.Options.Parses.{IsProcess, Reads, size_of, parse-Reads}
use cpp_atmi.Tests.Argv.{Argv, parts, tail, get, tokens_of, second}
use cpp_atmi.Tests.Domain.{constants, texts}

instance abbrev process : Process Argv
process = record {
  getopt = λ arguments w. get w;
  optarg = λ w. w.operand;
  optopt = λ w. pos 0;
  atoi = λ s. pos 512;
  strtok = λ s d w. (get_elem? (tokens_of s w) 0, record w { tokens = tail (tokens_of s w) });
  cout = λ s w. w;
  cerr = λ s w. w;
  version_text = bytes "4.6";
}

lawful : (arguments : Text) → IsProcess arguments (λ (w : Argv). w.rest) parts
lawful arguments = record {
  ended = λ w h. ground (arith, h);
  next = λ w o s os h. ground (arith, h);
  first = λ w s. (refl, second (parts s), refl);
  written = λ w s. (refl, refl);
}

-- -d -q S:Q -u me -u you
abbrev arguments : Argv
arguments = record {
  rest = (opt_d, []) ∷ (opt_q, 83 ∷ 58 ∷ 81 ∷ []) ∷ (opt_u, bytes "me") ∷ (opt_u, bytes "you") ∷ [];
  operand = none;
  tokens = [];
}

parse-Reads_example :
    (c' : ExportOptions) × (w' : Argv) × (parse set_export 5
        (bytes ":q:u:p:s:g:b:vo:d")
        export_options
        arguments
      ≡ some (c', w'))
    × Reads (size_of process) parts arguments.rest export_options c'
parse-Reads_example =
    parse-Reads (lawful (bytes ":q:u:p:s:g:b:vo:d")) 5 export_options arguments (omega arith)
