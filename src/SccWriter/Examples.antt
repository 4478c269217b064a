-- ===== src/SccWriter/Examples.antt =====
-- The program `(program p ((x t)) t (match x (c x)))` is written as C++.
use Prim.Native.Char.{}
use lfsc.Common.{
  ℕ, zero, suc, ◌≡◌, refl, subst, Bool, true, false, Option, none, some, List, [], ◌∷◌, get_elem?,
  arith,
}
use lfsc.Header.{Op}
use lfsc.Heap.{Ptr, null, syms, cexp, Cell, Heap, Outcome, ok, stop}
use lfsc.Heap.Returns.{Ensures}
use lfsc.Code.Examples.{naturals, cell}
use lfsc.SccWriter.{Text, codes, Source, Writer, add_scc}
use lfsc.SccWriter.Output.{new_writer, write_file}
use lfsc.SccWriter.Level.{IsNested}
use lfsc.SccWriter.Nested.Exprs.{last, CleanNode, IsSource}
use lfsc.SccWriter.Nested.Output.{write_file-IsNested}

abbrev cells : List (Cell ℕ ℕ)
cells =
    cell (cexp Op.prog (5 ∷ 2 ∷ 3 ∷ []))
    ∷ cell (cexp Op.progvars (4 ∷ []))
    ∷ cell (cexp Op.match (4 ∷ 6 ∷ []))
    ∷ cell (syms (codes "x") null)
    ∷ cell (cexp Op.type [])
    ∷ cell (cexp Op.case (7 ∷ 4 ∷ []))
    ∷ cell (syms (codes "c") null)
    ∷ []

abbrev cell_at : Ptr → Option (Cell ℕ ℕ)
cell_at zero = none
cell_at (suc p) = get_elem? cells p

abbrev memory : Heap ℕ ℕ
memory = record { next = 8; cell = cell_at }

abbrev no_programs : Source ℕ ℕ
no_programs = record {
  heap = memory;
  gmp = naturals;
  si_text = λ n. codes "7";
  mpq_get_num = λ q. q;
  mpq_get_den = λ q. 1;
  progs = [];
  prog_ptrs = [];
  prog_names = [];
  call_debug = false;
}

abbrev source : Source ℕ ℕ
source = record no_programs {
  progs = (codes "p", 1) ∷ [];
  prog_ptrs = 1 ∷ [];
  prog_names = codes "p" ∷ [];
}

source_lem : add_scc (codes "p") 1 no_programs ≡ source
unfolding add_scc
source_lem = refl

abbrev CleanCell : Option (Cell ℕ ℕ) → Type 0
CleanCell none = Unit
CleanCell (some c) = CleanNode memory c.node

clean_cells : (p : Ptr) → CleanCell (cell_at p)
clean_cells zero = tt
clean_cells (suc zero) = tt
clean_cells (suc (suc zero)) = tt
clean_cells (suc (suc (suc zero))) = last 6
clean_cells (suc (suc (suc (suc zero)))) = (refl, tt)
clean_cells (suc (suc (suc (suc (suc zero))))) = tt
clean_cells (suc (suc (suc (suc (suc (suc zero)))))) = tt
clean_cells (suc (suc (suc (suc (suc (suc (suc zero))))))) = (refl, tt)
clean_cells (suc (suc (suc (suc (suc (suc (suc (suc p)))))))) = tt

source-IsSource : IsSource source
source-IsSource = record {
  si_text = λ z. (refl, tt);
  prog_names = ((refl, tt), tt);
  nodes = λ p c e. subst CleanCell e (clean_cells p);
}

write_file-IsNested_example :
    Ensures (λ r _. IsNested r.0 × IsNested r.1) (write_file source 10 new_writer)
write_file-IsNested_example = write_file-IsNested source source-IsSource 10 (omega arith)

-- Writing ends here.
abbrev has_ended : Outcome Writer (Text × Text) → Bool
has_ended (ok r t) = true
has_ended (stop e) = false

write_file_run : has_ended (write_file source 10 new_writer) ≡ true
unfolding lfsc.SccWriter.has_name lfsc.SccWriter.line lfsc.SccWriter.push_var
    lfsc.SccWriter.add_global_sym lfsc.SccWriter.get_vars lfsc.SccWriter.get_program
    lfsc.SccWriter.new_expr lfsc.SccWriter.next_args lfsc.SccWriter.sym_name
    lfsc.SccWriter.Exprs.write_args lfsc.SccWriter.Exprs.write_decs
    lfsc.SccWriter.Matching.write_sym lfsc.SccWriter.Matching.write_match
    lfsc.SccWriter.Matching.write_case_part lfsc.SccWriter.Code.write_code
    lfsc.SccWriter.Output.start_program lfsc.SccWriter.Output.stream lfsc.SccWriter.Output.get_syms
    lfsc.SccWriter.Output.write_file lfsc.Heap.node lfsc.Heap.read lfsc.Heap.getop lfsc.Heap.kids
    lfsc.Heap.kid lfsc.Expr.get_head lfsc.Expr.collect_args lfsc.Expr.follow_defs
write_file_run = refl
