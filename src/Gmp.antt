-- ===== src/Gmp.antt =====
-- The numbers of GMP, which the checker calls: `mpz_t` (Z) and `mpq_t` (Q) and the functions on
-- them, each as it is documented to map its inputs to its outputs; none is the result -1 of
-- `mpz_set_str` and `mpq_set_str`.
use lfsc.Common.{ℕ, Option}
use lfsc.Trie.{Key}

-- The sign that `mpz_sgn`, `mpz_cmp` and their kin return.
pub data Sign : Type 0 where
  negative zero positive : Sign

pub record Gmp (Z Q : Type 0) : Type 0 where
  pub mpz_add : Z → Z → Z
  pub mpz_mul : Z → Z → Z
  pub mpz_fdiv_q : Z → Z → Z
  pub mpz_neg : Z → Z
  pub mpz_sgn : Z → Sign
  pub mpz_cmp : Z → Z → Sign
  pub mpz_get_ui : Z → ℕ
  pub mpq_add : Q → Q → Q
  pub mpq_mul : Q → Q → Q
  pub mpq_div : Q → Q → Q
  pub mpq_neg : Q → Q
  pub mpq_sgn : Q → Sign
  pub mpq_cmp : Q → Q → Sign
  pub mpq_canonicalize : Q → Q
  pub mpq_from_num : Z → Q
  pub mpz_set_str : Key → Option Z
  pub mpq_set_str : Key → Option Q
  -- `mpz_init_set_si`, at numbers that are not negative.
  pub mpz_set_si : ℕ → Z
