-- ===== src/Code/Examples.antt =====
-- The theorems on the code of side conditions at `(let x 5 x)`, where `x` is a type outside, and at
-- a cache with the results of two calls.
use lfsc.Common.{
  ℕ, true, refl, ◌+◌, ◌*◌, ◌-◌, ◌/◌, ◌≡◌, false, none, some, [], ◌∷◌, ◌==◌, if◌then◌else◌, list_eq,
  ltb,
}
use lfsc.Header.{Op}
use lfsc.Gmp.{Sign, Gmp}
use lfsc.Heap.Returns.{ended}
use lfsc.Heap.{null, Node, int, syms, cexp, Cell, node, read}
use lfsc.Heap.Returns.{Ensures}
use lfsc.Code.Check.Simple.{check_let, check_sym, name}
use lfsc.Trie.Scope.{insert_key}
use lfsc.Trie.{Key, trie, end, insert, insert_next, get}
use lfsc.Trie.Find.{leaf}
use lfsc.Code.Symbols.{Checker, stat_type, mem, get_symbol, insert_symbol}
use lfsc.Code.Symbols.Safe.{SameSymbols}
use lfsc.Code.Check.Types.{check_node, check_code}
use lfsc.Code.Check.Scoped.{check_code-SameSymbols}
use lfsc.Code.Cache.{ExprTrie, expr_trie, no_edge, edge, touch, get_data, set_data}
use lfsc.Code.Marks.{getmark, setmark, clearmark}
use lfsc.Code.Marks.Laws.{getmark-setmark, getmark-clearmark}
use lfsc.Code.Cache.Laws.{get_data-set_data, get_data-touch}

abbrev sgn : ℕ → Sign
sgn n = if n == 0 then Sign.zero else Sign.positive

abbrev cmp : ℕ → ℕ → Sign
cmp n m = if n == m then Sign.zero else (if ltb n m then Sign.negative else Sign.positive)

-- Numbers without a sign, of which the code here has one and computes none.
abbrev pub naturals : Gmp ℕ ℕ
naturals = record {
  mpz_add = λ n m. n + m;
  mpz_mul = λ n m. n * m;
  mpz_fdiv_q = λ n m. n / m;
  mpz_neg = λ n. 0 - n;
  mpz_sgn = sgn;
  mpz_cmp = cmp;
  mpz_get_ui = λ n. n;
  mpq_add = λ n m. n + m;
  mpq_mul = λ n m. n * m;
  mpq_div = λ n m. n / m;
  mpq_neg = λ n. 0 - n;
  mpq_sgn = sgn;
  mpq_cmp = cmp;
  mpq_canonicalize = λ n. n;
  mpq_from_num = λ n. n;
  mpz_set_str = λ k. none;
  mpq_set_str = λ k. none;
  mpz_set_si = λ n. n;
}

abbrev pub x : Key
x = b'x' ∷ []

abbrev pub cell : Node ℕ ℕ → Cell ℕ ℕ
cell n = record { count = 2; mark = false; node = n }

abbrev checker : Checker ℕ ℕ
checker = record {
  heap = record {
    next = 8;
    cell = λ p.
        if p == 1
        then some (cell (cexp Op.type []))
        else if p == 3
        then some (cell (cexp Op.mpz []))
        else if p == 5
        then some (cell (int 5))
        else if p == 6
        then some (cell (syms x null))
        else if p == 7
        then some (cell (cexp Op.let_ (6 ∷ 5 ∷ 6 ∷ [])))
        else none;
  };
  symbols = trie (some x) (6, stat_type) false end;
}

check_code-SameSymbols_example :
    Ensures (λ _ t. SameSymbols checker t) (check_code naturals 10 7 checker)
check_code-SameSymbols_example = check_code-SameSymbols naturals 10 7 checker (leaf x)

abbrev cache : ExprTrie
cache = expr_trie null (edge 4 (expr_trie null (edge 5 (expr_trie 9 no_edge) no_edge)) no_edge)

get_data-set_data_example :
    get_data (4 ∷ 6 ∷ []) (set_data (4 ∷ 6 ∷ []) 8 cache)
    ≡ (if list_eq (4 ∷ 6 ∷ []) (4 ∷ 6 ∷ []) then 8 else get_data (4 ∷ 6 ∷ []) cache)
get_data-set_data_example = get_data-set_data (4 ∷ 6 ∷ []) (4 ∷ 6 ∷ []) 8 cache

get_data-touch_example :
    get_data (4 ∷ 5 ∷ []) (touch (4 ∷ 6 ∷ []) cache) ≡ get_data (4 ∷ 5 ∷ []) cache
get_data-touch_example = get_data-touch (4 ∷ 6 ∷ []) (4 ∷ 5 ∷ []) cache

check_run : ended (check_code naturals 10 7 checker) ≡ true
unfolding check_code check_node check_let check_sym name get_symbol insert_symbol insert_key insert
    insert_next get mem node read
check_run = refl

getmark-setmark_example : getmark (setmark 9 2) 3 ≡ (if 2 == 3 then true else getmark 9 3)
getmark-setmark_example = getmark-setmark 9 2 3

getmark-clearmark_example : getmark (clearmark 9 3) 3 ≡ (if 3 == 3 then false else getmark 9 3)
getmark-clearmark_example = getmark-clearmark 9 3 3
