-- ===== src/Code/Marks/Laws.antt =====
-- The marks of a variable are independent: each bit is set and cleared alone.
use native.Mathlib.Nat.{div-div-eq-div-mul}
use lfsc.Common.{
  ℕ, zero, suc, ◌*◌, ◌/◌, ◌%◌, ◌^◌, ◌≤◌, ◌≡◌, sym, ◌∙◌, true, false, Bool-cases, inl, inr, ◌==◌,
  if◌then◌else◌, arith,
}
use lfsc.Code.Marks.{getmark, setmark, clearmark}

pow_suc : (i : ℕ) → 2 ^ suc i ≡ 2 * 2 ^ i
pow_suc i = omega arith

-- A bit above the lowest is a bit of the half.
getmark-suc : (m i : ℕ) → getmark m (suc i) ≡ getmark (m / 2) i
unfolding getmark
getmark-suc m i = rw (pow_suc i, sym (div-div-eq-div-mul m 2 (2 ^ i)))

getmark-zero : (m : ℕ) → getmark m 0 ≡ (m % 2 == 1)
unfolding getmark
getmark-zero m = ground arith

getmark-le : (m i : ℕ) → getmark m i ≡ true → 2 ^ i ≤ m
getmark-le m zero e = let z = getmark-zero m in ground arith
getmark-le m (suc i) e =
    let half = getmark-le (m / 2) i (sym (getmark-suc m i) ∙ e) in let p = pow_suc i in omega arith

setmark-half : (m i : ℕ) → setmark m (suc i) / 2 ≡ setmark (m / 2) i
unfolding setmark
setmark-half m i = let p = pow_suc i in rw (getmark-suc m i) (ground arith)

setmark-parity : (m i : ℕ) → setmark m (suc i) % 2 ≡ m % 2
unfolding setmark
setmark-parity m i = let p = pow_suc i in ground arith

setmark-zero : (m : ℕ) → (setmark m 0 / 2 ≡ m / 2) × (setmark m 0 % 2 ≡ 1)
unfolding setmark
setmark-zero m = let z = getmark-zero m in ground arith

clearmark-half : (m i : ℕ) → clearmark m (suc i) / 2 ≡ clearmark (m / 2) i
unfolding clearmark
clearmark-half m i = let p = pow_suc i in rw (getmark-suc m i) (ground arith)

clearmark-parity : (m i : ℕ) → clearmark m (suc i) % 2 ≡ m % 2
unfolding clearmark
clearmark-parity m i =
    let p = pow_suc i in
    elim (Bool-cases (getmark m (suc i))) [
      | inl e ↦ let le = getmark-le m (suc i) e in rw e (omega arith)
      | inr e ↦ rw e
    ]

clearmark-zero : (m : ℕ) → (clearmark m 0 / 2 ≡ m / 2) × (clearmark m 0 % 2 ≡ 0)
unfolding clearmark
clearmark-zero m = let z = getmark-zero m in ground arith

zero_is_not_suc : (j : ℕ) → (0 == suc j) ≡ false
zero_is_not_suc j = ground arith

suc_is_not_zero : (i : ℕ) → (suc i == 0) ≡ false
suc_is_not_zero i = ground arith

suc_is_suc : (i j : ℕ) → (suc i == suc j) ≡ (i == j)
suc_is_suc i j = ground arith

-- After a mark is set it is set, and every other mark is as it was.
pub getmark-setmark : (m i j : ℕ) → getmark (setmark m i) j ≡ (if i == j then true else getmark m j)
getmark-setmark m zero zero = getmark-zero (setmark m 0) ∙ rw ((setmark-zero m).1)
getmark-setmark m zero (suc j) =
    getmark-suc (setmark m 0) j ∙ rw ((setmark-zero m).0, zero_is_not_suc j) (sym (getmark-suc m j))
getmark-setmark m (suc i) zero =
    getmark-zero (setmark m (suc i))
    ∙ rw (setmark-parity m i, suc_is_not_zero i) (sym (getmark-zero m))
getmark-setmark m (suc i) (suc j) =
    getmark-suc (setmark m (suc i)) j
    ∙ rw (setmark-half m i, suc_is_suc i j) (getmark-setmark (m / 2) i j ∙ rw (getmark-suc m j))

-- After a mark is cleared it is not set, and every other mark is as it was.
pub getmark-clearmark :
    (m i j : ℕ) → getmark (clearmark m i) j ≡ (if i == j then false else getmark m j)
getmark-clearmark m zero zero = getmark-zero (clearmark m 0) ∙ rw ((clearmark-zero m).1)
getmark-clearmark m zero (suc j) =
    getmark-suc (clearmark m 0) j
    ∙ rw ((clearmark-zero m).0, zero_is_not_suc j) (sym (getmark-suc m j))
getmark-clearmark m (suc i) zero =
    getmark-zero (clearmark m (suc i))
    ∙ rw (clearmark-parity m i, suc_is_not_zero i) (sym (getmark-zero m))
getmark-clearmark m (suc i) (suc j) =
    getmark-suc (clearmark m (suc i)) j
    ∙ rw (clearmark-half m i, suc_is_suc i j) (getmark-clearmark (m / 2) i j ∙ rw (getmark-suc m j))
