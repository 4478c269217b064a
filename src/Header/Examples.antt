-- ===== src/Header/Examples.antt =====
-- The theorems on the word of an expression at concrete words.
use lfsc.Common.{
  ℕ, ◌+◌, ◌-◌, ◌^◌, ◌<◌, ◌≡◌, ◌⊎◌, true, false, none, some, ◌==◌, if◌then◌else◌, arith,
}
use lfsc.Header.{
  max_ref_count, getclass, getop, getexmark, setexmark, clearexmark, getrefcnt, inc, dec,
}
use lfsc.Header.Laws.{IsHeader, SameFields, inc_lem, dec_lem, dec-inc, setexmark-clearexmark}

-- An application with the flag set and the count 3.
abbrev word : ℕ
word = 1800

word-IsHeader : IsHeader word
unfolding getrefcnt
word-IsHeader = record { counted = omega arith; bounded = omega arith }

inc_lem_example :
    IsHeader (inc word)
    × (getrefcnt (inc word)
        ≡ (if getrefcnt word == max_ref_count then max_ref_count else getrefcnt word + 1))
    × SameFields (inc word) word
    × (inc word < 2 ^ 31)
inc_lem_example = inc_lem word word-IsHeader

dec_lem_example :
    ((dec word ≡ none) × (getrefcnt word ≡ 1))
    ⊎ ((e : ℕ) × (dec word ≡ some e)
        × IsHeader e
        × SameFields e word
        × (getrefcnt e
            ≡ (if getrefcnt word == max_ref_count then max_ref_count else getrefcnt word - 1)))
dec_lem_example = dec_lem word word-IsHeader

dec-inc_example :
    (getrefcnt word + 1 < max_ref_count → dec (inc word) ≡ some word)
    × (getrefcnt word ≡ max_ref_count → (inc word ≡ word) × (dec word ≡ some word))
dec-inc_example = dec-inc word word-IsHeader

setexmark-clearexmark_example :
    (getexmark (setexmark word) ≡ true)
    × (getexmark (clearexmark word) ≡ false)
    × (getclass (setexmark word) ≡ getclass word)
    × (getclass (clearexmark word) ≡ getclass word)
    × (getop (setexmark word) ≡ getop word)
    × (getop (clearexmark word) ≡ getop word)
    × (getrefcnt (setexmark word) ≡ getrefcnt word)
    × (getrefcnt (clearexmark word) ≡ getrefcnt word)
setexmark-clearexmark_example = setexmark-clearexmark word
