-- ===== src/Main/Examples.antt =====
-- Command lines, with a file in front of an option.
use lfsc.Common.{◌≡◌, refl, true, none, some, List, [], ◌∷◌, ◌++◌, if◌then◌else◌}
use mathlib.Core.Option
use lfsc.Trie.{Key}
use lfsc.SccWriter.{codes}
use lfsc.Main.{no_args, is_help, parse_arg, parse_args}
use lfsc.Main.Arguments.{asks_help, no_options, parse_args-files}

abbrev line : List Key
line = codes "a" ∷ codes "--compile-scc" ∷ codes "b" ∷ []

parse_args-files_example :
    Option.map (λ b. b.files) (parse_args line no_args)
    ≡ (if asks_help line then none else some (no_args.files ++ no_options line))
parse_args-files_example = parse_args-files line no_args

parse_args_run :
    parse_args line no_args
    ≡ some (record no_args { files = codes "a" ∷ codes "b" ∷ []; compile_scc = true })
unfolding parse_args is_help parse_arg
parse_args_run = refl

-- A file whose name starts with `-h` asks for help.
help_run : parse_args (codes "a" ∷ codes "-hello" ∷ []) no_args ≡ none
unfolding parse_args is_help parse_arg
help_run = refl
