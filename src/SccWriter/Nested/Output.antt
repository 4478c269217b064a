-- ===== src/SccWriter/Nested/Output.antt =====
-- The two files that `write_file` writes have their braces nested.
use lfsc.Common.{
  ℕ, zero, suc, ◌+◌, ◌<◌, ◌≡◌, refl, ◌∙◌, Bool, true, false, some, List, [], ◌∷◌, ◌++◌, length,
  take,
}
use lfsc.Trie.{Key}
use lfsc.Heap.{Ptr, Cmd}
use lfsc.Heap.Returns
use lfsc.Heap.Returns.{Ensures, ensures, stops}
use lfsc.SccWriter.{Text, lit, var, Source, Writer, decimal}
use lfsc.SccWriter.Matching.{name_at}
use lfsc.SccWriter.Output.{
  comma, declare_all, init_symbols, init_progs, arg_texts, else_if, write_entry, write_entries,
  write_tables, stream, get_syms, write_file, new_writer,
}
use lfsc.SccWriter.Level.{
  levels, level-append, Plain, Plain-append, AllPlain, IsNested, decimal-Plain,
}
use lfsc.SccWriter.Nested.{
  Writes, Level, Writes-pure, Writes-bind, say-Writes, line-Writes, line-then,
}
use lfsc.SccWriter.Nested.Exprs.{IsSource, names-Plain}
use lfsc.SccWriter.Nested.Functions.{
  comma-Plain, take-AllPlain, get_function_name-Plain, name-Plain, prog_vars-Level, write_h-Level,
  write_functions-Level,
}

declare_all-Level : (ns : List Key) → AllPlain ns → Level 0 (declare_all ns)
unfolding declare_all
declare_all-Level [] h = Writes-pure 0 _ tt tt
declare_all-Level (n ∷ ns) h =
    Writes-bind (say-Writes _ refl (h.0, tt)) λ _ _. declare_all-Level ns h.1

init_symbols-Level : (ns : List Key) → AllPlain ns → Level 1 (init_symbols ns)
unfolding init_symbols
init_symbols-Level [] h = Writes-pure 1 _ tt tt
init_symbols-Level (n ∷ ns) h = line-then _ _ _ refl (h.0, (h.0, tt)) (init_symbols-Level ns h.1)

init_progs-Level : (ns : List Key) → AllPlain ns → Level 1 (init_progs ns)
unfolding init_progs
init_progs-Level [] h = Writes-pure 1 _ tt tt
init_progs-Level (n ∷ ns) h = line-then _ _ _ refl (h.0, (h.0, tt)) (init_progs-Level ns h.1)

arg_texts-Plain : (first : Bool) (i : ℕ) (ps : List Ptr) → Plain (arg_texts first i ps)
arg_texts-Plain first i [] = λ d. refl
arg_texts-Plain first i (p ∷ ps) =
    let close : Plain (b']' ∷ arg_texts false (i + 1) ps) = arg_texts-Plain false (i + 1) ps in
    let number =
      Plain-append (decimal i) (b']' ∷ arg_texts false (i + 1) ps) (decimal-Plain i) close in
    Plain-append (comma first) _ (comma-Plain first) number

module _ {Z Q : Type 0} (src : Source Z Q) (v : IsSource src) where
  -- The depth in front of the test for a program: all but the first stand in the one before.
  abbrev before : ℕ → ℕ
  before zero = 1
  before (suc n) = 2

  entry_line :
      (n : ℕ) (name : Text)
      → levels (some (before n)) (lit (else_if n) ∷ lit "if( p==e_" ∷ var name ∷ lit " ){" ∷ [])
        ≡ some 2
  entry_line zero name = refl
  entry_line (suc n) name = refl

  write_entry-Writes : (n : ℕ) → Writes (before n) 2 (λ _. Unit {0}) (write_entry src n)
  unfolding write_entry
  write_entry-Writes n =
      line-then _ _ _ (entry_line n (name_at src.prog_names n)) (name-Plain src v n, tt)
        (Writes-bind (prog_vars-Level src v 2 n) λ vars _. line-Writes _ _ refl (
          get_function_name-Plain (name_at src.prog_names n) (name-Plain src v n),
          (arg_texts-Plain true 0 vars, tt),
        ))

  write_entries-Level : (n k : ℕ) → Level 2 (write_entries src (suc n) k)
  unfolding write_entries
  write_entries-Level n zero = Writes-pure 2 _ tt tt
  write_entries-Level n (suc k) =
      Writes-bind (write_entry-Writes (suc n)) λ _ _. write_entries-Level (suc n) k

  names-AllPlain : AllPlain (take (length src.progs) src.prog_names)
  names-AllPlain = take-AllPlain (length src.progs) src.prog_names (names-Plain src v)

  module _ (k : ℕ) (some_prog : length src.progs ≡ suc k) where
    write_all_entries : Writes 1 2 (λ _. Unit {0}) (write_entries src 0 (suc k))
    unfolding write_entries
    write_all_entries = Writes-bind (write_entry-Writes 0) λ _ _. write_entries-Level 0 k

    entries-Writes : Writes 1 2 (λ _. Unit {0}) (write_entries src 0 (length src.progs))
    entries-Writes = rw some_prog write_all_entries

    write_tables-Level : (syms : List Key) → AllPlain syms → Level 0 (write_tables src syms)
    unfolding write_tables
    write_tables-Level syms h = Writes-bind (say-Writes _ refl tt) λ _ _.
        Writes-bind (declare_all-Level syms h) λ _ _.
          Writes-bind (declare_all-Level _ names-AllPlain) λ _ _.
            Writes-bind (say-Writes _ refl tt) λ _ _. Writes-bind (init_symbols-Level syms h) λ _ _.
              Writes-bind (init_progs-Level _ names-AllPlain) λ _ _.
                Writes-bind (say-Writes _ refl tt) λ _ _. Writes-bind entries-Writes λ _ _.
                  line-then _ _ _ refl tt
                    (line-then _ _ _ refl tt (line-then _ _ _ refl tt (say-Writes _ refl tt)))

    stream-Writes : (a : ℕ) {m : Cmd Writer (Unit {0})} → Level 0 m → Writes a a IsNested (stream m)
    unfolding stream
    stream-Writes a p = record {
      run = λ s h.
          Returns.bind (p.run (record s { out = [] }) (record { depth = refl; syms = h.syms }))
            λ _ t r. ensures (r.1.depth, record { depth = h.depth; syms = r.1.syms });
    }

    get_syms-Writes : (a : ℕ) → Writes a a AllPlain get_syms
    unfolding get_syms
    get_syms-Writes a = record { run = λ s h. ensures (h.syms, h) }

    write_file-Writes : (f : ℕ) → Writes 0 0 (λ r. IsNested r.0 × IsNested r.1) (write_file src f)
    unfolding write_file
    write_file-Writes f = Writes-bind (stream-Writes 0 (write_h-Level src v)) λ h p.
        Writes-bind (stream-Writes 0 (write_functions-Level src v f 0 (length src.progs))) λ fs q.
          Writes-bind (get_syms-Writes 0) λ syms r.
            Writes-bind (stream-Writes 0 (write_tables-Level syms r))
              λ ts t. Writes-pure 0 _ (h, ts ++ fs) (p, level-append (some 0) ts fs ∙ rw t q)

  -- Where there is a program, the names of programs and symbols and what GMP prints have no braces
  -- and no character above 126, and no match has a kid behind its default, the two files that are
  -- written, if writing ends, have every brace closed in the order of nesting.
  pub write_file-IsNested :
      (f : ℕ)
      → 0 < length src.progs
      → Ensures (λ r _. IsNested r.0 × IsNested r.1) (write_file src f new_writer)
  write_file-IsNested f some_prog = go (length src.progs) refl some_prog
    where
      go :
          (n : ℕ)
          → length src.progs ≡ n
          → 0 < n
          → Ensures (λ r _. IsNested r.0 × IsNested r.1) (write_file src f new_writer)
      go zero e h = elim h [ ]
      go (suc k) e h =
          Returns.mono
            ((write_file-Writes k e f).run new_writer (record { depth = refl; syms = tt }))
            λ r t p. p.0
