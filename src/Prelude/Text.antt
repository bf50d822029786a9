-- ===== src/Prelude/Text.antt =====
-- Text as the bytes of a C string (without the final NUL), and what printf makes of numbers.
use Prim.Native.Nat.{ℕ, zero, suc, ◌+◌, ◌-◌, ◌*◌, ◌/◌, ◌%◌, ◌^◌, ◌≤◌, ◌<◌}
use Prim.Native.Nat.pow
use native.Mathlib.Nat.{pow-suc}
use Prim.Native.Char.{code}
use Prim.Native.String.{String}
use mathlib.Core.Path.{◌≡◌, refl, ap, ◌∙◌}
use mathlib.Core.Bool.{Bool, true, false, not, ◌&&◌}
use mathlib.Core.List.{List, [], ◌∷◌, ◌++◌}
use native.Mathlib.Omega.{arith}
use mathlib.Core.Logic.{inl, inr}
use errmark.Prelude.Tests.{Bool-cases, ltb, ◌==◌, if◌then◌else◌}
use errmark.Prelude.Lists.{length, replicate}
use errmark.Prelude.Int.{ℤ, pos, negsuc}

abbrev pub Bytes : Type 0
Bytes = List ℕ

-- The code points of a literal; these are its bytes when the text is ASCII.
abbrev pub codes : String → Bytes
codes String.[] = []
codes (String.◌∷◌ c s) = code c ∷ codes s

-- strcmp(a, b) == 0
abbrev pub eq_bytes : Bytes → Bytes → Bool
eq_bytes [] [] = true
eq_bytes [] (y ∷ ys) = false
eq_bytes (x ∷ xs) [] = false
eq_bytes (x ∷ xs) (y ∷ ys) = x == y && eq_bytes xs ys

pub same_byte : (c : ℕ) → (c == c) ≡ true
same_byte c = ground arith

-- The byte does not occur in the text.
abbrev pub lacks : ℕ → Bytes → Bool
lacks c [] = true
lacks c (x ∷ xs) = not (x == c) && lacks c xs

-- A digit in base 16 or less.
abbrev digit : ℕ → ℕ
digit d = if ltb d 10 then b'0' + d else b'a' + (d - 10)

-- The digits of `n` in front of `out`, the last one first; none at 0.
digits : ℕ → ℕ → ℕ → Bytes → Bytes
digits base zero n out = out
digits base (suc fuel) n out = elim (n == 0) [
  | true ↦ out
  | false ↦ digits base fuel (n / base) (digit (n % base) ∷ out)
]

-- `%u` and `%zu`
unfoldable pub decimal : ℕ → Bytes
unfolding digits
decimal n = if n == 0 then b'0' ∷ [] else digits 10 n n []

-- `%x`
unfoldable pub hex : ℕ → Bytes
unfolding digits
hex n = if n == 0 then b'0' ∷ [] else digits 16 n n []

-- `%d`
unfoldable pub signed_decimal : ℤ → Bytes
unfolding decimal
signed_decimal (pos n) = decimal n
signed_decimal (negsuc n) = b'-' ∷ decimal (suc n)

-- A number with the digits `text` in a field of `width` characters, filled with `fill` on the left.
unfoldable pub pad_left : ℕ → ℕ → Bytes → Bytes
pad_left fill width text = replicate (width - length text) fill ++ text

-- `%02x`
unfoldable pub hex2 : ℕ → Bytes
unfolding hex pad_left
hex2 n = pad_left b'0' 2 (hex n)

div_below : (base n k : ℕ) → 1 < base → n < base ^ suc k → n / base < base ^ k
div_below base n k b h = grind (arith, pow-suc base k)

length-digits :
    (base fuel n k : ℕ) (out : Bytes)
    → 1 < base
    → n < base ^ k
    → length (digits base fuel n out) ≤ k + length out
unfolding digits
length-digits base zero n k out b h = omega arith
length-digits base (suc fuel) n zero out b h = ground (arith, pow.zero base)
length-digits base (suc fuel) n (suc k) out b h = ground (
  arith,
  length-digits base fuel (n / base) k (digit (n % base) ∷ out) b (div_below base n k b h),
)

pub length-decimal : (n k : ℕ) → n < 10 ^ suc k → length (decimal n) ≤ suc k
unfolding decimal
length-decimal n k h = elim (Bool-cases (n == 0)) [
  | inl e ↦ ground arith
  | inr ne ↦ ground (arith, length-digits 10 n n (suc k) [] (omega arith) h)
]

-- A number read from decimal digits, behind others that make `n`.
abbrev pub read_from : ℕ → Bytes → ℕ
read_from n [] = n
read_from n (c ∷ cs) = read_from (n * 10 + (c - b'0')) cs

read_step : (n : ℕ) → n / 10 * 10 + (digit (n % 10) - b'0') ≡ n
read_step n = ground arith

suc-ne-zero : (n : ℕ) → (suc n == 0) ≡ false
suc-ne-zero n = ground arith

digits-suc :
    (fuel n : ℕ) (out : Bytes)
    → digits 10 (suc fuel) (suc n) out ≡ digits 10 fuel (suc n / 10) (digit (suc n % 10) ∷ out)
unfolding digits
digits-suc fuel n out =
    ap
      (λ b. elim b as (λ _. Bytes) [
        | true ↦ out
        | false ↦ digits 10 fuel (suc n / 10) (digit (suc n % 10) ∷ out)
      ])
      (suc-ne-zero n)

read_from-digits :
    (fuel n : ℕ) (out : Bytes) → n ≤ fuel → read_from 0 (digits 10 fuel n out) ≡ read_from n out
unfolding digits
read_from-digits zero zero out h = refl
read_from-digits zero (suc n) out h = absurd (omega arith)
read_from-digits (suc fuel) zero out h = refl
read_from-digits (suc fuel) (suc n) out h =
    ap (read_from 0) (digits-suc fuel n out)
    ∙ read_from-digits fuel (suc n / 10) (digit (suc n % 10) ∷ out) (omega arith)
    ∙ ap (λ (k : ℕ). read_from k out) (read_step (suc n))

pub read_from-decimal : (n : ℕ) → read_from 0 (decimal n) ≡ n
unfolding decimal
read_from-decimal zero = refl
read_from-decimal (suc n) = rw (suc-ne-zero n) (read_from-digits (suc n) (suc n) [] (omega arith))

hex_tests : (hex2 255 ≡ codes "ff") × (hex2 7 ≡ codes "07")
unfolding hex2
hex_tests = (refl, refl)

decimal_tests : (decimal 1203 ≡ codes "1203") × (signed_decimal (negsuc 4) ≡ codes "-5")
unfolding decimal signed_decimal
decimal_tests = (refl, refl)
