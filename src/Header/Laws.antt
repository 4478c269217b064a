-- ===== src/Header/Laws.antt =====
-- The fields of the word are independent, and the count saturates.
use lfsc.Common.{
  ℕ, ◌*◌, ◌⊎◌, inl, inr, Bool-cases, ◌+◌, ◌-◌, ◌/◌, ◌%◌, ◌^◌, ◌≤◌, ◌<◌, ◌≡◌, true, false, none,
  some, arith, ◌==◌, if◌then◌else◌,
}
use lfsc.Header.{
  Class, Op, class_code, op_code, max_ref_count, new_data, getclass, getop, getexmark, setexmark,
  clearexmark, getrefcnt, inc, dec, dec_ref,
}

-- The words of expressions that are in use: a count from 1 to the maximum.
pub record IsHeader (data' : ℕ) : Type 0 where
  pub counted : 1 ≤ getrefcnt data'
  pub bounded : getrefcnt data' ≤ max_ref_count

-- The three fields besides the count.
abbrev pub SameFields : ℕ → ℕ → Type 0
SameFields d e = (getclass d ≡ getclass e) × (getop d ≡ getop e) × (getexmark d ≡ getexmark e)

pub class_code-lt : (c : Class) → class_code c < 8
unfolding class_code
class_code-lt c = ground arith

pub op_code-lt : (o : Op) → op_code o < 32
unfolding op_code
op_code-lt Op.not_cexpr = omega arith
op_code-lt _ = omega arith

-- A new expression has the class and the operator that it was made with, no flag, and the count 1.
new_data-fields :
    (c : Class) (o : Op)
    → (getclass (new_data c o) ≡ class_code c)
      × (getop (new_data c o) ≡ op_code o)
      × (getexmark (new_data c o) ≡ false)
      × (getrefcnt (new_data c o) ≡ 1)
unfolding new_data getclass getop getexmark getrefcnt
new_data-fields c o = ground (arith, class_code-lt c, op_code-lt o)

-- `inc` adds one to a count below the maximum and keeps a count at the maximum; the other fields
-- stay, and the word stays below 2 ^ 31, so that `int` does not overflow.
pub inc_lem :
    (d : ℕ)
    → IsHeader d
    → IsHeader (inc d)
      × (getrefcnt (inc d)
          ≡ (if getrefcnt d == max_ref_count then max_ref_count else getrefcnt d + 1))
      × SameFields (inc d) d
      × (inc d < 2 ^ 31)
unfolding inc getclass getop getexmark getrefcnt
inc_lem d h = ground arith

-- `dec` destroys exactly the expressions with the count 1; it takes one from a greater count below
-- the maximum, keeps a count at the maximum, and leaves the other fields.
pub dec_lem :
    (d : ℕ)
    → IsHeader d
    → ((dec d ≡ none) × (getrefcnt d ≡ 1))
      ⊎ ((e : ℕ) × (dec d ≡ some e)
          × IsHeader e
          × SameFields e d
          × (getrefcnt e
              ≡ (if getrefcnt d == max_ref_count then max_ref_count else getrefcnt d - 1)))
unfolding dec getclass getop getexmark getrefcnt
dec_lem d h = elim (Bool-cases (dec_ref (d / 512) == 0)) [
  | inl e ↦ inl (rw e, ground arith)
  | inr e ↦ inr (dec_ref (d / 512) * 512 + d % 512, rw e, ground arith, ground arith, ground arith)
]

-- A reference that is taken and given back leaves the word as it was, unless taking it brings the
-- count to the maximum; a count at the maximum is not changed again by either.
pub dec-inc :
    (d : ℕ)
    → IsHeader d
    → ((getrefcnt d + 1 < max_ref_count → dec (inc d) ≡ some d)
        × (getrefcnt d ≡ max_ref_count → (inc d ≡ d) × (dec d ≡ some d)))
unfolding inc dec getrefcnt
dec-inc d h = ground arith

-- Setting and clearing the flag do so, and leave the class, the operator and the count.
pub setexmark-clearexmark :
    (d : ℕ)
    → (getexmark (setexmark d) ≡ true)
      × (getexmark (clearexmark d) ≡ false)
      × (getclass (setexmark d) ≡ getclass d)
      × (getclass (clearexmark d) ≡ getclass d)
      × (getop (setexmark d) ≡ getop d)
      × (getop (clearexmark d) ≡ getop d)
      × (getrefcnt (setexmark d) ≡ getrefcnt d)
      × (getrefcnt (clearexmark d) ≡ getrefcnt d)
unfolding setexmark clearexmark getclass getop getexmark getrefcnt
setexmark-clearexmark d = ground arith
