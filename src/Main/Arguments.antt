-- ===== src/Main/Arguments.antt =====
-- What the command line means: options, a request for help, and names of files.
use lfsc.Common.{
  ◌≡◌, sym, ap, Bool, false, ◌||◌, none, some, List, [], ◌∷◌, ◌++◌, list_eq, if◌then◌else◌,
  Bool-cases, inl, inr,
}
use mathlib.Core.List.{append_assoc, append-nil}
use mathlib.Core.Option
use lfsc.Trie.{Key}
use lfsc.SccWriter.{codes}
use lfsc.Main.{Args, parse_arg, parse_args, is_help}

abbrev pub is_one_of : List Key → Key → Bool
is_one_of [] s = false
is_one_of (o ∷ os) s = list_eq o s || is_one_of os s

abbrev pub options : List Key
options =
    codes "--show-runs"
    ∷ codes "--no-tail-calls"
    ∷ codes "--compile-scc"
    ∷ codes "--compile-scc-debug"
    ∷ codes "--run-scc"
    ∷ codes "--use-nested-app"
    ∷ []

abbrev pub asks_help : List Key → Bool
asks_help [] = false
asks_help (s ∷ ss) = is_help s || asks_help ss

-- The arguments that are no option.
abbrev pub no_options : List Key → List Key
no_options [] = []
no_options (s ∷ ss) = if is_one_of options s then no_options ss else s ∷ no_options ss

parse_arg-files :
    (s : Key) (ss : List Key) (a : Args)
    → (parse_arg s a).files ++ no_options ss ≡ a.files ++ no_options (s ∷ ss)
unfolding parse_arg
parse_arg-files s ss a = elim (Bool-cases (list_eq (codes "--show-runs") s)) [
  | inl y ↦ rw y
  | inr n1 ↦ elim (Bool-cases (list_eq (codes "--no-tail-calls") s)) [
    | inl y ↦ rw (n1, y)
    | inr n2 ↦ elim (Bool-cases (list_eq (codes "--compile-scc") s)) [
      | inl y ↦ rw (n1, n2, y)
      | inr n3 ↦ elim (Bool-cases (list_eq (codes "--compile-scc-debug") s)) [
        | inl y ↦ rw (n1, n2, n3, y)
        | inr n4 ↦ elim (Bool-cases (list_eq (codes "--run-scc") s)) [
          | inl y ↦ rw (n1, n2, n3, n4, y)
          | inr n5 ↦ elim (Bool-cases (list_eq (codes "--use-nested-app") s)) [
            | inl y ↦ rw (n1, n2, n3, n4, n5, y)
            | inr n6 ↦ rw (n1, n2, n3, n4, n5, n6) (append_assoc a.files (s ∷ []) (no_options ss))
          ]
        ]
      ]
    ]
  ]
]

-- If an argument asks for help, the usage is printed; else the files are the arguments that are no
-- option, in their order, behind those that were there.
pub parse_args-files :
    (ss : List Key) (a : Args)
    → Option.map (λ b. b.files) (parse_args ss a)
      ≡ (if asks_help ss then none else some (a.files ++ no_options ss))
unfolding parse_args
parse_args-files [] a = ap some (sym (append-nil a.files))
parse_args-files (s ∷ ss) a = elim (Bool-cases (is_help s)) [
  | inl y ↦ rw y
  | inr n ↦ rw (n, parse_args-files ss (parse_arg s a), parse_arg-files s ss a)
]
