-- ===== src/Base/Decimal.antt =====
-- What pkg/auth uses of package strconv on int64: FormatInt and ParseInt in base 10.
use Prim.Native.Nat.{ℕ, zero, suc, ◌+◌, ◌-◌, ◌*◌, ◌/◌, ◌%◌, ◌^◌, ◌≤◌, ◌<◌}
use mathlib.Core.Path.{◌≡◌, refl, ◌∙◌, subst}
use mathlib.Core.Bool.{Bool, true, false, ◌&&◌}
use mathlib.Core.Logic.{◌≢◌, inl, inr}
use mathlib.Core.Option.{Option, none, some}
use mathlib.Core.List.{[], ◌∷◌}
use native.Mathlib.Omega.{arith}
use diverge.Base.Tests.{leb, ltb, ◌==◌, if◌then◌else◌, Bool-cases}
use diverge.Base.Bytes.{Text}
use diverge.Base.Int.{ℤ, pos, negsuc, IsInt64, max_int64, sub_ℕ}

-- Each round emits the last digit; `n` rounds are more than enough.
digits : ℕ → ℕ → Text → Text
digits zero n out = out
digits (suc f) n out =
    let rest = digits f (n / 10) ((b'0' + n % 10) ∷ out) in if n == 0 then out else rest

unfoldable pub format_uint : ℕ → Text
unfolding digits
format_uint n = if n == 0 then b'0' ∷ [] else digits n n []

-- strconv.FormatInt(n, 10)
unfoldable pub format_int : ℤ → Text
unfolding format_uint
format_int (pos n) = format_uint n
format_int (negsuc n) = b'-' ∷ format_uint (suc n)

scan : Text → ℕ → Option ℕ
scan [] n = some n
scan (c ∷ s) n =
    let rest = scan s (n * 10 + (c - b'0')) in if leb b'0' c && leb c b'9' then rest else none

parse_uint : Text → Option ℕ
unfolding scan
parse_uint [] = none
parse_uint (c ∷ s) = scan (c ∷ s) 0

-- An error on a value out of range, as on a syntax error.
in_range : Bool → Option ℕ → Option ℤ
in_range neg none = none
in_range false (some n) = if ltb max_int64 n then none else some (pos n)
in_range true (some n) = if ltb (2 ^ 63) n then none else some (sub_ℕ 0 n)

-- strconv.ParseInt(s, 10, 64), with `none` for an error.
unfoldable pub parse_int : Text → Option ℤ
unfolding parse_uint in_range
parse_int [] = none
parse_int (c ∷ s) =
    if c == b'-'
    then in_range true (parse_uint s)
    else if c == b'+'
    then in_range false (parse_uint s)
    else in_range false (parse_uint (c ∷ s))

-- Reading the last digit of `n` after the digits before it gives `n`.
scan_last : (n : ℕ) (out : Text) → scan ((b'0' + n % 10) ∷ out) (n / 10) ≡ scan out n
unfolding scan
scan_last n out = ground arith

scan-digits : (f n : ℕ) (out : Text) → n ≤ f → scan (digits f n out) 0 ≡ scan out n
unfolding digits
scan-digits zero n out h = let e : n ≡ 0 = omega arith in rw e
scan-digits (suc f) n out h =
    ground (arith, scan_last n out, scan-digits f (n / 10) ((b'0' + n % 10) ∷ out))

-- A number's print begins with a digit, and so with no sign.
abbrev StartsDigit : Text → Type 0
StartsDigit [] = ⊥
StartsDigit (c ∷ s) = (b'0' ≤ c) × (c ≤ b'9')

digits-StartsDigit : (f n : ℕ) (out : Text) → n ≤ f → StartsDigit out → StartsDigit (digits f n out)
unfolding digits
digits-StartsDigit zero n out h d = d
digits-StartsDigit (suc f) n out h d = elim (Bool-cases (n == 0)) [
  | inl e ↦ rw e d
  | inr e ↦ rw e (digits-StartsDigit f (n / 10) ((b'0' + n % 10) ∷ out) (omega arith) (omega arith))
]

digits_pos-StartsDigit : (f n : ℕ) → n ≤ f → 0 < n → StartsDigit (digits f n [])
unfolding digits
digits_pos-StartsDigit zero n h p = absurd (omega arith)
digits_pos-StartsDigit (suc f) n h p =
    let e : n == 0 ≡ false = ground arith in
    rw e (digits-StartsDigit f (n / 10) ((b'0' + n % 10) ∷ []) (omega arith) (omega arith))

format_uint-StartsDigit : (n : ℕ) → StartsDigit (format_uint n)
unfolding format_uint
format_uint-StartsDigit n = elim (Bool-cases (n == 0)) [
  | inl e ↦ rw e (omega arith)
  | inr e ↦ rw e (digits_pos-StartsDigit n n (omega arith) (ground arith))
]

scan-format_uint : (n : ℕ) → scan (format_uint n) 0 ≡ some n
unfolding format_uint
scan-format_uint n = elim (Bool-cases (n == 0)) [
  | inl e ↦ let z : n ≡ 0 = ground arith in rw z (unfold scan in refl)
  | inr e ↦ rw e (scan-digits n n [] (omega arith) ∙ unfold scan in refl)
]

parse_uint-scan : (s : Text) → StartsDigit s → parse_uint s ≡ scan s 0
unfolding parse_uint
parse_uint-scan [] h = absurd h
parse_uint-scan (c ∷ s) h = refl

parse_uint-format_uint : (n : ℕ) → parse_uint (format_uint n) ≡ some n
parse_uint-format_uint n =
    parse_uint-scan (format_uint n) (format_uint-StartsDigit n) ∙ scan-format_uint n

parse_int_unsigned : (s : Text) → StartsDigit s → parse_int s ≡ in_range false (parse_uint s)
unfolding parse_int
parse_int_unsigned [] h = absurd h
parse_int_unsigned (c ∷ s) h = ground arith

parse_int_negative : (s : Text) → parse_int (b'-' ∷ s) ≡ in_range true (parse_uint s)
unfolding parse_int
parse_int_negative s = refl

-- Every int64 is read back from its print.
pub parse_int-format_int : (a : ℤ) → IsInt64 a → parse_int (format_int a) ≡ some a
unfolding format_int
parse_int-format_int (pos n) h =
    rw (parse_int_unsigned (format_uint n) (format_uint-StartsDigit n), parse_uint-format_uint n)
      (unfold in_range in ground arith)
parse_int-format_int (negsuc n) h =
    rw (parse_int_negative (format_uint (suc n)), parse_uint-format_uint (suc n))
      (unfold in_range in ground arith)

in_range-IsInt64 :
    (negative : Bool) (m : Option ℕ) (a : ℤ) → in_range negative m ≡ some a → IsInt64 a
unfolding in_range
in_range-IsInt64 negative m a h = ground arith

-- What is read is an int64.
pub parse_int-IsInt64 : (s : Text) (a : ℤ) → parse_int s ≡ some a → IsInt64 a
unfolding parse_int
parse_int-IsInt64 [] a h = absurd (cc h)
parse_int-IsInt64 (c ∷ s) a h = ground (
  arith,
  in_range-IsInt64 true (parse_uint s) a,
  in_range-IsInt64 false (parse_uint s) a,
  in_range-IsInt64 false (parse_uint (c ∷ s)) a,
)

pub format_int-ne-nil : (a : ℤ) → format_int a ≢ []
unfolding format_int
format_int-ne-nil (pos n) e = subst StartsDigit e (format_uint-StartsDigit n)
format_int-ne-nil (negsuc n) e = cc
