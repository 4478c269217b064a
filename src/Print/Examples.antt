-- ===== src/Print/Examples.antt =====
-- Printing `(c _ 5)`, an application in memory, with a hole that has no value.
use lfsc.Common.{
  ℕ, zero, suc, ◌≡◌, true, All, arith, refl, subst, Option, none, some, List, [], ◌∷◌, get_elem?,
}
use lfsc.Header.{Op}
use lfsc.Heap.{Ptr, null, Node, int, rat, hole, sym, syms, cexp, Cell, Heap, Outcome, ok, stop}
use lfsc.Code.Examples.{naturals, cell}
use lfsc.SccWriter.{Text, codes}
use lfsc.Print.{Texts, print}
use lfsc.Expr.Arguments.{is_live}
use lfsc.Print.Ends.{HasRanks, HasValueBelow, IsBelow, is_printable, parts}
use lfsc.Print.Paren.{IsBalanced}
use lfsc.Print.Balanced.{HasNames, NamedNode, print-IsBalanced}

abbrev cells : List (Cell ℕ ℕ)
cells =
    cell (cexp Op.app (2 ∷ 3 ∷ 4 ∷ []))
    ∷ cell (syms (codes "c") null)
    ∷ cell (hole null)
    ∷ cell (int 5)
    ∷ []

abbrev cell_at : Ptr → Option (Cell ℕ ℕ)
cell_at zero = none
cell_at (suc p) = get_elem? cells p

abbrev memory : Heap ℕ ℕ
memory = record { next = 5; cell = cell_at }

abbrev texts : Texts ℕ ℕ
texts = record {
  gmp = naturals;
  mpz_get_str = λ n. codes "5";
  mpq_get_num = λ q. q;
  mpq_get_den = λ q. 1;
  address = λ p. codes "0x3";
}

abbrev NamedCell : Option (Cell ℕ ℕ) → Type 0
NamedCell none = Unit
NamedCell (some c) = NamedNode c.node

named_cells : (p : Ptr) → NamedCell (cell_at p)
named_cells zero = tt
named_cells (suc zero) = tt
named_cells (suc (suc zero)) = (refl, refl, tt)
named_cells (suc (suc (suc zero))) = tt
named_cells (suc (suc (suc (suc zero)))) = tt
named_cells (suc (suc (suc (suc (suc p))))) = tt

memory-HasNames : HasNames texts memory
memory-HasNames = record {
  numeral = λ z. (refl, refl, tt);
  address = λ p. (refl, refl, (refl, refl, (refl, refl, tt)));
  names = λ p c e. subst NamedCell e (named_cells p);
}

-- The application stands over its parts.
abbrev rank_of : Ptr → ℕ
rank_of (suc zero) = 1
rank_of _ = 0

abbrev RankedCell : Ptr → Option (Cell ℕ ℕ) → Type 0
RankedCell p none = Unit
RankedCell p (some c) =
    (is_printable c.node ≡ true)
    × All (IsBelow memory rank_of (rank_of p)) (parts c.node)
    × HasValueBelow memory rank_of (rank_of p) c.node

ranked_cells : (p : Ptr) → RankedCell p (cell_at p)
ranked_cells zero = tt
ranked_cells (suc zero) = (
  refl,
  (
    (is_live _ refl, omega arith),
    ((is_live _ refl, omega arith), ((is_live _ refl, omega arith), tt)),
  ),
  tt,
)
ranked_cells (suc (suc zero)) = (refl, tt, λ n. absurd cc)
ranked_cells (suc (suc (suc zero))) = (refl, tt, tt)
ranked_cells (suc (suc (suc (suc zero)))) = (refl, tt, tt)
ranked_cells (suc (suc (suc (suc (suc p))))) = tt

memory-HasRanks : HasRanks memory rank_of
memory-HasRanks = record {
  printable = λ p c e. (subst (RankedCell p) e (ranked_cells p)).0;
  falls = λ p c e. (subst (RankedCell p) e (ranked_cells p)).1;
  values = λ p c e. (subst (RankedCell p) e (ranked_cells p)).2;
}

print-IsBalanced_example : (t : Text) × (print texts 3 1 memory ≡ ok t memory) × IsBalanced t
print-IsBalanced_example =
    print-IsBalanced texts memory memory-HasNames rank_of 3 1 memory-HasRanks (is_live _ refl)
      (omega arith)

print_output : print texts 3 1 memory ≡ ok (codes "(c _[ 0x3] 5)") memory
unfolding print lfsc.Heap.node lfsc.Heap.read lfsc.Expr.collect_args
print_output = refl
