-- ===== src/SccWriter/Nested/Functions.antt =====
-- The declarations and the functions that `write_file` writes have their braces nested.
use lfsc.Common.{ℕ, zero, suc, refl, Bool, true, false, List, [], ◌∷◌, length, take, if◌then◌else◌}
use lfsc.Trie.{Key}
use lfsc.Heap.{Ptr, pure}
use lfsc.Heap.Returns.{ensures}
use lfsc.SccWriter.{Text, codes, lit, Source, no_opts, get_function_name, say}
use lfsc.SccWriter.Code.{write_code}
use lfsc.SccWriter.Matching.{name_at}
use lfsc.SccWriter.Output.{
  comma, prog_vars, write_params, print_params, write_call_debug, write_function_header,
  write_declarations, write_h, start_program, write_function, write_functions,
}
use lfsc.SccWriter.Level.{Plain, Plain-append, AllPlain, get_var_name-Plain}
use lfsc.SccWriter.Nested.{
  Writes, Level, Writes-pure, Writes-if, Writes-bind, say-Writes, line-Writes, line-then,
  push_var-Level, look-Level,
}
use lfsc.SccWriter.Nested.Exprs.{IsSource, names-Plain, sym_name-Writes, write_expr-Names}
use lfsc.SccWriter.Nested.Apps.{name_at-Plain}
use lfsc.SccWriter.Nested.Code.{write_code-Level}

pub comma-Plain : (b : Bool) → Plain (comma b)
comma-Plain true = λ d. refl
comma-Plain false = λ d. refl

pub take-AllPlain : (n : ℕ) (ts : List Text) → AllPlain ts → AllPlain (take n ts)
take-AllPlain zero ts h = tt
take-AllPlain (suc n) [] h = tt
take-AllPlain (suc n) (t ∷ ts) h = (h.0, take-AllPlain n ts h.1)

pub get_function_name-Plain : (n : Key) → Plain n → Plain (get_function_name n)
get_function_name-Plain n p = Plain-append (codes "f_") n (λ d. refl) p

module _ {Z Q : Type 0} (src : Source Z Q) (v : IsSource src) where
  pub name-Plain : (n : ℕ) → Plain (name_at src.prog_names n)
  name-Plain n = name_at-Plain src.prog_names n (names-Plain src v)

  pub prog_vars-Level : (a n : ℕ) → Level a (prog_vars src n)
  unfolding prog_vars
  prog_vars-Level a n = Writes-bind (look-Level src a _) λ vars _. look-Level src a _

  write_params-Level :
      (a : ℕ) (add_args first : Bool) (ps : List Ptr) → Level a (write_params src add_args first ps)
  unfolding write_params
  write_params-Level a add_args first [] = Writes-pure a _ tt tt
  write_params-Level a add_args first (p ∷ ps) = Writes-bind (sym_name-Writes src v a p) λ s c.
      Writes-bind (say-Writes _ refl (comma-Plain first, (get_var_name-Plain s c, tt))) λ _ _.
        Writes-bind (Writes-if add_args (push_var-Level a s) (Writes-pure a _ tt tt))
          λ _ _. write_params-Level a add_args false ps

  print_params-Level : (a : ℕ) (first : Bool) (ps : List Ptr) → Level a (print_params src first ps)
  unfolding print_params
  print_params-Level a first [] = Writes-pure a _ tt tt
  print_params-Level a first (p ∷ ps) =
      Writes-bind (Writes-if first (Writes-pure a _ tt tt) (line-Writes _ _ refl tt)) λ _ _.
        Writes-bind (sym_name-Writes src v a p)
          λ s c. line-then _ _ _ refl (get_var_name-Plain s c, tt) (print_params-Level a false ps)

  write_call_debug-Writes :
      (a : ℕ) (name : Key) (vars : List Ptr)
      → Plain name
      → Writes a (suc a) (λ _. Unit {0}) (write_call_debug src name vars)
  unfolding write_call_debug
  write_call_debug-Writes a name vars p = Writes-bind (say-Writes _ refl tt) λ _ _.
      line-then _ _ _ refl (get_function_name-Plain name p, tt)
        (Writes-bind (print_params-Level (suc a) true vars) λ _ _. line-Writes _ _ refl tt)

  -- With the option for debugging the header opens the body.
  abbrev opened : Bool → ℕ → ℕ
  opened true a = suc a
  opened false a = a

  write_function_header-Writes :
      (a n : ℕ) (add_args debug : Bool)
      → Writes a (opened debug a) (λ _. Unit {0}) (write_function_header src n add_args debug)
  unfolding write_function_header
  write_function_header-Writes a n add_args debug =
      Writes-bind
        (say-Writes _ refl (get_function_name-Plain (name_at src.prog_names n) (name-Plain n), tt))
        λ _ _. Writes-bind (prog_vars-Level a n) λ vars _.
          Writes-bind (write_params-Level a add_args true vars)
            λ _ _. Writes-bind (say-Writes _ refl tt) λ _ _. go debug vars
    where
      go :
          (debug : Bool) (vars : List Ptr)
          → Writes a
              (opened debug a)
              (λ _. Unit {0})
              (if debug then write_call_debug src (name_at src.prog_names n) vars else pure tt)
      go true vars = write_call_debug-Writes a (name_at src.prog_names n) vars (name-Plain n)
      go false vars = Writes-pure a _ tt tt

  write_declarations-Level : (a n k : ℕ) → Level a (write_declarations src n k)
  unfolding write_declarations
  write_declarations-Level a n zero = Writes-pure a _ tt tt
  write_declarations-Level a n (suc k) = Writes-bind (say-Writes _ refl tt) λ _ _.
      Writes-bind (write_function_header-Writes a n false false)
        λ _ _. Writes-bind (say-Writes _ refl tt) λ _ _. write_declarations-Level a (suc n) k

  pub write_h-Level : Level 0 (write_h src)
  unfolding write_h
  write_h-Level = Writes-bind (say-Writes _ refl tt) λ _ _.
      Writes-bind (say-Writes _ refl tt) λ _ _. Writes-bind (say-Writes _ refl tt) λ _ _.
        Writes-bind (write_declarations-Level 0 0 (length src.progs)) λ _ _. say-Writes _ refl tt

  start_program-Level : (a n : ℕ) → Level a (start_program n)
  unfolding start_program
  start_program-Level a n = record {
    run = λ s h. ensures (tt, record { depth = h.depth; syms = h.syms });
  }

  write_function-Level : (f n : ℕ) → Level 0 (write_function src f n)
  unfolding write_function
  write_function-Level f n = Writes-bind (start_program-Level 0 n) λ _ _.
      Writes-bind (write_function_header-Writes 0 n true src.call_debug) λ _ _.
        Writes-bind (go src.call_debug) λ _ _. Writes-bind (look-Level src 1 _) λ body _.
          Writes-bind
            (write_expr-Names src v (write_code src f) (write_code-Level src v f) 1 body 1 no_opts)
            λ e p. line-then _ _ _ refl (p, tt) (say-Writes _ refl tt)
    where
      go :
          (debug : Bool)
          → Writes
              (opened debug 0)
              1
              (λ _. Unit {0})
              (if debug then pure tt else say (lit "{\n" ∷ []))
      go true = Writes-pure 1 _ tt tt
      go false = say-Writes _ refl tt

  pub write_functions-Level : (f n k : ℕ) → Level 0 (write_functions src f n k)
  unfolding write_functions
  write_functions-Level f n zero = Writes-pure 0 _ tt tt
  write_functions-Level f n (suc k) =
      Writes-bind (write_function-Level f n) λ _ _. write_functions-Level f (suc n) k
