-- ===== src/Text/Decimal.antt =====
-- strconv.Itoa and strconv.Atoi, which fmt's %d shares, and that one reads back what the other prints.
use Prim.Native.Char.{Char, code}
use native.Mathlib.Nat.{pow-suc}
use mystic_hypervisor.Prelude.Int.{ℤ, pos, negsuc}
use mystic_hypervisor.Prelude.{
  ℕ, zero, suc, ◌+◌, ◌-◌, ◌*◌, ◌/◌, ◌%◌, ◌^◌, ◌≤◌, ◌<◌, ◌≡◌, refl, ap, false, String, Option, none,
  some, arith, ltb, ◌||◌, ◌==◌, nat_eq, if◌then◌else◌, Bool-cases, inl, inr,
}

unfoldable pub digit : ℕ → Char
digit d =
    if d == 0
    then "0"
    else if d == 1
    then "1"
    else if d == 2
    then "2"
    else if d == 3
    then "3"
    else if d == 4
    then "4"
    else if d == 5
    then "5"
    else if d == 6
    then "6"
    else if d == 7
    then "7"
    else if d == 8
    then "8"
    else "9"

-- `for n > 0`: each round writes the last digit in front. A round is one unit of fuel.
unfoldable pub emit : ℕ → ℕ → String → String
unfolding digit
emit zero n out = out
emit (suc f) n out =
    let rest = emit f (n / 10) (String.◌∷◌ (digit (n % 10)) out) in if n == 0 then out else rest

-- Twenty digits hold every number of 64 bits.
unfoldable pub format : ℕ → String
format n = if n == 0 then "0" else emit 20 n ""

-- strconv.Itoa
unfoldable pub itoa : ℤ → String
unfolding format
itoa (pos n) = format n
itoa (negsuc n) = String.◌∷◌ "-" (format (suc n))

-- The number that decimal digits spell behind `n`.
unfoldable pub scan : String → ℕ → Option ℕ
scan String.[] n = some n
scan (String.◌∷◌ c s) n =
    let rest = scan s (n * 10 + (code c - b'0')) in
    if ltb (code c) b'0' || ltb b'9' (code c) then none else rest

unfoldable pub digits : String → Option ℕ
unfolding scan
digits String.[] = none
digits (String.◌∷◌ c s) = scan (String.◌∷◌ c s) 0

-- The range check of a signed integer of 64 bits.
unfoldable pub fits : Option ℕ → Option ℤ
fits none = none
fits (some n) = if ltb n (2 ^ 63) then some (pos n) else none

unfoldable pub fits_negative : Option ℕ → Option ℤ
fits_negative none = none
fits_negative (some zero) = some (pos 0)
fits_negative (some (suc n)) = if ltb n (2 ^ 63) then some (negsuc n) else none

-- strconv.Atoi: `none` is its error, on the syntax or on the range.
unfoldable pub atoi : String → Option ℤ
unfolding digits fits fits_negative
atoi String.[] = none
atoi (String.◌∷◌ c s) =
    if code c == b'-'
    then fits_negative (digits s)
    else if code c == b'+'
    then fits (digits s)
    else fits (digits (String.◌∷◌ c s))

pub code-digit : (d : ℕ) → d < 10 → code (digit d) ≡ b'0' + d
unfolding digit
code-digit zero h = refl
code-digit (suc zero) h = refl
code-digit (suc (suc zero)) h = refl
code-digit (suc (suc (suc zero))) h = refl
code-digit (suc (suc (suc (suc zero)))) h = refl
code-digit (suc (suc (suc (suc (suc zero))))) h = refl
code-digit (suc (suc (suc (suc (suc (suc zero)))))) h = refl
code-digit (suc (suc (suc (suc (suc (suc (suc zero))))))) h = refl
code-digit (suc (suc (suc (suc (suc (suc (suc (suc zero)))))))) h = refl
code-digit (suc (suc (suc (suc (suc (suc (suc (suc (suc zero))))))))) h = refl
code-digit (suc (suc (suc (suc (suc (suc (suc (suc (suc (suc n)))))))))) h = absurd (omega arith)

-- A digit is read as its value.
scan-digit :
    (d n m : ℕ) (out : String)
    → d < 10
    → n * 10 + d ≡ m
    → scan (String.◌∷◌ (digit d) out) n ≡ scan out m
unfolding scan
scan-digit d n m out h e =
    rw (code-digit d h) (rw (not_below d, not_above d h) (ap (scan out) (omega (arith, e))))
  where
    not_below : (k : ℕ) → ltb (b'0' + k) b'0' ≡ false
    not_below k = ground arith

    not_above : (k : ℕ) → k < 10 → ltb b'9' (b'0' + k) ≡ false
    not_above k lt = ground arith

scan-emit : (f n : ℕ) (out : String) → n < 10 ^ f → scan (emit f n out) 0 ≡ scan out n
unfolding emit
scan-emit zero n out h = ground arith
scan-emit (suc f) n out h = ground (
  arith,
  scan-digit (n % 10) (n / 10) n out,
  scan-emit f (n / 10) (String.◌∷◌ (digit (n % 10)) out),
  pow-suc 10 f,
)

-- What `emit` prints of a positive number starts with a digit.
abbrev StartsWithDigit : String → Type 0
StartsWithDigit String.[] = ⊥
StartsWithDigit (String.◌∷◌ c s) = (b'0' ≤ code c) × (code c ≤ b'9')

emit-StartsWithDigit :
    (f n : ℕ) (out : String) → StartsWithDigit out → StartsWithDigit (emit f n out)
unfolding emit
emit-StartsWithDigit zero n out h = h
emit-StartsWithDigit (suc f) n out h = elim (Bool-cases (n == 0)) [
  | inl p ↦ rw p h
  | inr q ↦ rw q (emit-StartsWithDigit f (n / 10) _ (omega (arith, code-digit (n % 10))))
]

pos-emit : (f n : ℕ) → 0 < n → StartsWithDigit (emit (suc f) n "")
unfolding emit
pos-emit f n h = elim (Bool-cases (n == 0)) [
  | inl p ↦ absurd (ground arith)
  | inr q ↦ rw q (emit-StartsWithDigit f (n / 10) _ (omega (arith, code-digit (n % 10))))
]

-- A text that starts with a digit has no sign.
atoi_of_digits : (s : String) → StartsWithDigit s → atoi s ≡ fits (scan s 0)
unfolding atoi
atoi_of_digits String.[] h = absurd h
atoi_of_digits (String.◌∷◌ c s) h = ground arith

format-StartsWithDigit : (n : ℕ) → StartsWithDigit (format n)
unfolding format
format-StartsWithDigit n = elim (Bool-cases (n == 0)) [
  | inl p ↦ rw p (omega arith)
  | inr q ↦ rw q (pos-emit 19 n (ground arith))
]

scan-format : (n : ℕ) → n < 2 ^ 63 → scan (format n) 0 ≡ some n
unfolding format scan
scan-format n h = elim (Bool-cases (n == 0)) [
  | inl p ↦ rw p (ap some (ground arith))
  | inr q ↦ rw q (scan-emit 20 n "" (omega arith))
]

-- Every number of 63 bits is read back from its decimal print.
pub atoi-itoa : (n : ℕ) → n < 2 ^ 63 → atoi (itoa (pos n)) ≡ some (pos n)
unfolding itoa fits
atoi-itoa n h =
    rw (atoi_of_digits (format n) (format-StartsWithDigit n), scan-format n h) (ground arith)
