-- ===== src/Cscript/Symbols.antt =====
-- The buffers for the symbol of an errno value: 12 bytes in `fshow_errno`, 32 in `fexplain_err`.
use errmark.Prelude.{
  ℕ, zero, suc, ap, ◌∙◌, [], List, Bool, Bool-cases, inl, inr, ltb, true, ◌&&◌, ◌==◌, eq_bytes,
  codes, if◌then◌else◌, read_from, read_from-decimal, ◌-◌, ◌≤◌, ◌<◌, ◌^◌, ◌≡◌, refl, Option, none,
  some, ◌∷◌, ℤ, pos, Bytes, length, take-over, signed_decimal, length-decimal, arith,
}
use Prim.Native.String.{String}
use errmark.Cscript.Esym.{errno_symbols, errno_table_size, snprintf, known_esym, decode_esym_r}

-- The symbol, where there is one, and a number otherwise; whole in both cases.
abbrev pub symbol_of : ℤ → Bytes
unfolding known_esym signed_decimal
symbol_of err = elim (known_esym err) [ some sym ↦ sym | none ↦ b'#' ∷ signed_decimal err ]

short_number : (n : ℕ) → n < 10 ^ 10 → length (signed_decimal (pos n)) ≤ 10
unfolding signed_decimal
short_number n h = length-decimal n 9 h

-- For an errno value that is an `int` and not negative, `decode_esym_r` with a buffer of 12 bytes
-- or more gives the symbol, or where there is none, the number behind `#`, whole.
pub decode_esym_r-whole :
    (bufsz n : ℕ) → 12 ≤ bufsz → n < 2 ^ 31 → decode_esym_r bufsz (pos n) ≡ symbol_of (pos n)
unfolding decode_esym_r symbol_of
decode_esym_r-whole bufsz n h k = by_table (known_esym (pos n))
  where
    by_table :
        (o : Option Bytes)
        → elim o [ some sym ↦ sym | none ↦ snprintf bufsz (b'#' ∷ signed_decimal (pos n)) ]
          ≡ elim o [ some sym ↦ sym | none ↦ b'#' ∷ signed_decimal (pos n) ]
    by_table (some text) = refl
    by_table none =
        take-over (bufsz - 1) (b'#' ∷ signed_decimal (pos n))
          (omega (arith, short_number n (omega arith)))

-- The index of a symbol in the table.
abbrev index_in : List (Option String) → Bytes → ℕ
index_in [] text = 0
index_in (none ∷ rows) text = suc (index_in rows text)
index_in (some sym ∷ rows) text =
    let rest = suc (index_in rows text) in if eq_bytes (codes sym) text then 0 else rest

-- A reader of what `decode_esym_r` writes.
abbrev pub number_of : Bytes → ℕ
number_of [] = 0
number_of (c ∷ text) = if c == b'#' then read_from 0 text else index_in errno_symbols (c ∷ text)

all_below : ℕ → (ℕ → Bool) → Bool
all_below zero test = true
all_below (suc n) test = test n && all_below n test

below : (n : ℕ) (test : ℕ → Bool) (k : ℕ) → all_below n test ≡ true → k < n → test k ≡ true
unfolding all_below
below zero test k h lt = absurd (omega arith)
below (suc n) test k h lt = ground (arith, below n test k)

-- A symbol is read back.
abbrev reads_back : ℕ → Option Bytes → Bool
reads_back n none = true
reads_back n (some sym) = number_of sym == n

abbrev in_table : ℕ → Bool
unfolding known_esym
in_table n = reads_back n (known_esym (pos n))

table_read_back : all_below errno_table_size in_table ≡ true
unfolding all_below in_table
table_read_back = refl

known_esym-reads_back : (n : ℕ) → reads_back n (known_esym (pos n)) ≡ true
unfolding known_esym in_table
known_esym-reads_back n = elim (Bool-cases (ltb n errno_table_size)) [
  | inl known ↦ below errno_table_size in_table n table_read_back (ground arith)
  | inr unknown ↦ rw unknown refl
]

same_number : (a b : ℕ) → (a == b) ≡ true → a ≡ b
same_number a b h = ground arith

symbol-number : (n : ℕ) → number_of (symbol_of (pos n)) ≡ n
unfolding symbol_of
symbol-number n = by_table (known_esym (pos n)) (known_esym-reads_back n)
  where
    by_table :
        (o : Option Bytes)
        → reads_back n o ≡ true
        → number_of (elim o [ some sym ↦ sym | none ↦ b'#' ∷ signed_decimal (pos n) ]) ≡ n
    by_table none h = unfold signed_decimal in read_from-decimal n
    by_table (some text) h = same_number (number_of text) n h

-- What `decode_esym_r` gives for an errno value that is an `int` and not negative, with a buffer of
-- 12 bytes or more, can be read back: a symbol by its index in the table, and a number behind `#`
-- by its digits.
pub decode_esym_r-number :
    (bufsz n : ℕ) → 12 ≤ bufsz → n < 2 ^ 31 → number_of (decode_esym_r bufsz (pos n)) ≡ n
decode_esym_r-number bufsz n h k = ap number_of (decode_esym_r-whole bufsz n h k) ∙ symbol-number n
