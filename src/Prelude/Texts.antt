-- ===== src/Prelude/Texts.antt =====
-- What the program uses of strings, strconv and fmt: numbers printed, texts searched, characters
-- replaced.
use Prim.Native.Nat.{ℕ, zero, suc, ◌/◌, ◌%◌, ◌≤◌, ◌-◌, compare, Ordering}
use Prim.Native.Char.{Char, len_utf8}
use Prim.Native.String.len
use Prim.Native.String.slice
use Prim.Native.String.{String, ◌++◌ as ◌<>◌, len, slice, fits}
use mathlib.Core.Path.{◌≡◌, refl, sym, ap, ◌∙◌}
use mathlib.Core.Bool.{Bool, true, false, ◌&&◌}
use mathlib.Core.Logic.{inl, inr}
use mathlib.Core.Option.{none, some}
use native.Mathlib.Omega.{arith}
use text.Mathlib.TextEquality.{slice-prefix}
use text.Mathlib.TextLemmas.{nil-append, cons-append}
use text.Mathlib.Text.{starts_with, find?}
use pumpkin_pie.Prelude.Tests.{if◌then◌else◌, ltb, nat_eq, Bool-cases}

-- strings.Contains
unfoldable pub contains : String → String → Bool
contains s t = elim (find? s t) [ none ↦ false | some i ↦ true ]

-- strings.TrimPrefix
unfoldable pub trim_prefix : String → String → String
trim_prefix s t = if starts_with s t then slice s (len t) (len s) else s

pub digit : ℕ → String
digit n =
    if nat_eq n 0
    then "0"
    else if nat_eq n 1
    then "1"
    else if nat_eq n 2
    then "2"
    else if nat_eq n 3
    then "3"
    else if nat_eq n 4
    then "4"
    else if nat_eq n 5
    then "5"
    else if nat_eq n 6
    then "6"
    else if nat_eq n 7
    then "7"
    else if nat_eq n 8
    then "8"
    else "9"

digits : ℕ → ℕ → String
unfolding digit
digits zero n = digit n
digits (suc fuel) n =
    let rest = digits fuel (n / 10) in if ltb n 10 then digit n else rest <> digit (n % 10)

-- strconv.Itoa and %d of a number that is not negative.
unfoldable pub decimal : ℕ → String
unfolding digits
decimal n = digits n n

-- More fuel than the number changes nothing.
digits_fuel : (fuel more n : ℕ) → n ≤ fuel → n ≤ more → digits fuel n ≡ digits more n
unfolding digits
digits_fuel zero zero n h k = refl
digits_fuel zero (suc more) n h k = let e : ltb n 10 ≡ true = ground arith in rw e refl
digits_fuel (suc fuel) zero n h k = let e : ltb n 10 ≡ true = ground arith in rw e refl
digits_fuel (suc fuel) (suc more) n h k = elim (Bool-cases (ltb n 10)) [
  | inl e ↦ rw e refl
  | inr e ↦ rw (e, digits_fuel fuel more (n / 10) (ground (arith, e)) (ground (arith, e))) refl
]

digits-suc :
    (fuel n : ℕ) → ltb n 10 ≡ false → digits (suc fuel) n ≡ digits fuel (n / 10) <> digit (n % 10)
unfolding digits
digits-suc fuel n e = rw e refl

decimal_small : (n : ℕ) → ltb n 10 ≡ true → decimal n ≡ digit n
unfolding decimal digits
decimal_small zero e = refl
decimal_small (suc n) e = rw e refl

-- The fuel is enough: a number of one digit is its digit, and another its tenth, and then its last.
pub decimal-step :
    (n : ℕ) → decimal n ≡ (if ltb n 10 then digit n else decimal (n / 10) <> digit (n % 10))
unfolding decimal
decimal-step n = elim (Bool-cases (ltb n 10)) [
  | inl e ↦ rw e (decimal_small n e)
  | inr e ↦
      let tenth = digits_fuel n (n / 10) (n / 10) (omega arith) (omega arith) in
      rw e (
        digits_fuel n (suc n) n (omega arith) (omega arith)
        ∙ digits-suc n n e
        ∙ ap (λ s. s <> digit (n % 10)) tenth)
]

-- A strings.Replacer of single characters.
unfoldable pub replace : (Char → String) → String → String
replace f String.[] = ""
replace f (String.◌∷◌ c s) = f c <> replace f s

-- Every character passes the test.
unfoldable pub every : (Char → Bool) → String → Bool
every p String.[] = true
every p (String.◌∷◌ c s) = p c && every p s

pub every-append : (p : Char → Bool) (s t : String) → every p (s <> t) ≡ every p s && every p t
unfolding every
every-append p String.[] t = rw (nil-append t) refl
every-append p (String.◌∷◌ c s) t = rw (cons-append c s t) (ground (arith, every-append p s t))

pub every-replace :
    (p : Char → Bool) (f : Char → String) (s : String)
    → ((c : Char) → every p (f c) ≡ true)
    → every p (replace f s) ≡ true
unfolding every replace
every-replace p f String.[] h = refl
every-replace p f (String.◌∷◌ c s) h =
    every-append p (f c) (replace f s) ∙ ground (arith, h c, every-replace p f s h)

-- The beginning of a text, cut at a byte position.
pub every-slice :
    (p : Char → Bool) (s : String) (n : ℕ) → every p s ≡ true → every p (slice s 0 n) ≡ true
every-slice p s n h =
    let (rest, whole) = slice-prefix s n in
    let parts : (every p (slice s 0 n) && every p rest) ≡ true =
      sym (every-append p (slice s 0 n) rest) ∙ ap (every p) whole ∙ h in
    first_of (every p (slice s 0 n)) (every p rest) parts
  where
    first_of : (a b : Bool) → (a && b) ≡ true → a ≡ true
    first_of a b e = ground (arith, e)

len-fits_le :
    (c : Char) (rest : String) (n : ℕ) (o : Ordering)
    → compare (len_utf8 c) n ≡ o
    → len rest ≤ n - len_utf8 c
    → len (fits o c rest) ≤ n
len-fits_le c rest n Ordering.lt e h = rw (len.cons c rest) (ground (arith, e, h))
len-fits_le c rest n Ordering.eq e h = rw (len.cons c rest) (ground (arith, e, h))
len-fits_le c rest n Ordering.gt e h = rw len.nil (omega arith)

pub len-slice_le : (s : String) (n : ℕ) → len (slice s 0 n) ≤ n
len-slice_le String.[] n = rw (slice.nil 0 n, len.nil) (omega arith)
len-slice_le (String.◌∷◌ c s) n = rw (slice.cons-zero c s n) (
    len-fits_le c (slice s 0 (n - len_utf8 c)) n (compare (len_utf8 c) n) refl
      (len-slice_le s (n - len_utf8 c)))
