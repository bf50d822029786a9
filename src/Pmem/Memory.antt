-- ===== src/Pmem/Memory.antt =====
-- The tracee's memory, and what the kernel documents of PTRACE_PEEKDATA over it.
use Prim.Native.Nat.add
use native.Mathlib.Nat.{add-zero}
use errmark.Prelude.{
  ℕ, zero, suc, ◌+◌, ◌*◌, ◌/◌, ◌<◌, ◌≤◌, ◌-◌, append_assoc, ◌≡◌, refl, ap, Bool, true, false, [],
  ◌∷◌, ◌++◌, Bytes, length, take, arith,
}
use errmark.Pmem.{Peek, word, failed, eio}

-- `n` bytes from address `a` on
abbrev pub bytes_at : (ℕ → ℕ) → ℕ → ℕ → Bytes
bytes_at mem a zero = []
bytes_at mem a (suc n) = mem a ∷ bytes_at mem (a + 1) n

-- A word is read if its 8 bytes are readable, whatever its alignment, and else EIO results.
-- What is readable is whole pages, so words that are aligned are readable as a whole or not at all.
pub record Traced (peek : ℕ → Peek) (mem : ℕ → ℕ) (readable : ℕ → Bool) : Type 0 where
  pub peek_word :
      (a : ℕ) → ((i : ℕ) → i < 8 → readable (a + i) ≡ true) → peek a ≡ word (bytes_at mem a 8)
  pub peek_fails : (a i : ℕ) → i < 8 → readable (a + i) ≡ false → peek a ≡ failed eio
  pub whole_words : (a : ℕ) → readable a ≡ readable (a / 8 * 8)

pub length-bytes_at : (mem : ℕ → ℕ) (a n : ℕ) → length (bytes_at mem a n) ≡ n
length-bytes_at mem a zero = refl
length-bytes_at mem a (suc n) = ap suc (length-bytes_at mem (a + 1) n)

pub bytes_at-append :
    (mem : ℕ → ℕ) (a m n : ℕ) → bytes_at mem a m ++ bytes_at mem (a + m) n ≡ bytes_at mem a (m + n)
bytes_at-append mem a zero n = rw (add-zero, add.zero)
bytes_at-append mem a (suc m) n =
    rw (add.suc m n, a_suc) (ap (λ (l : Bytes). mem a ∷ l) (bytes_at-append mem (a + 1) m n))
  where
    a_suc : a + suc m ≡ a + 1 + m
    a_suc = omega arith

pub take-bytes_at : (mem : ℕ → ℕ) (a m n : ℕ) → m ≤ n → take m (bytes_at mem a n) ≡ bytes_at mem a m
take-bytes_at mem a zero n h = refl
take-bytes_at mem a (suc m) zero h = absurd (omega arith)
take-bytes_at mem a (suc m) (suc n) h =
    ap (λ (l : Bytes). mem a ∷ l) (take-bytes_at mem (a + 1) m n (omega arith))

-- What is stored so far, a piece of the word at `a`, and the bytes that follow the piece.
pub bytes_at_grows :
    (mem : ℕ → ℕ) (out : Bytes) (a m len : ℕ)
    → m ≤ len
    → m ≤ 8
    → (out ++ take m (bytes_at mem a 8)) ++ bytes_at mem (a + m) (len - m)
      ≡ out ++ bytes_at mem a len
bytes_at_grows mem out a m len h k =
    rw (append_assoc, take-bytes_at mem a m 8 k, bytes_at-append mem a m (len - m), whole)
  where
    whole : m + (len - m) ≡ len
    whole = omega arith
