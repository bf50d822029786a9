-- ===== src/Pmem/Sound.antt =====
-- What `pmem_copy` has stored when a peek fails on the way.
use native.Mathlib.Nat.{add-zero}
use errmark.Prelude.{
  ℕ, pos, minus_one, zero, suc, ◌+◌, ◌-◌, ◌%◌, ◌^◌, ◌≤◌, ◌<◌, ◌≡◌, ◌⊎◌, inl, inr, refl, Bool-cases,
  Bytes, take, leb, ltb, ◌==◌, ◌++◌, arith,
}
use errmark.Pmem.{
  Peek, word, failed, Copied, advance, first_size, peek_error, copy_runt, copy_words, pmem_copy,
}
use errmark.Pmem.Memory.{bytes_at, take-bytes_at, bytes_at-append}

module _ (peek : ℕ → Peek) (mem : ℕ → ℕ) (raddr len : ℕ) where
  -- `k` bytes from the start of the region are stored; the count is returned, or -1.
  abbrev pub Prefix : Copied → Type 0
  Prefix c =
      (k : ℕ) × (c.out ≡ bytes_at mem raddr k) × (k ≤ len) × ((c.rv ≡ pos k) ⊎ (c.rv ≡ minus_one))

  peek_error_cases : (e n : ℕ) → (peek_error e n ≡ pos n) ⊎ (peek_error e n ≡ minus_one)
  unfolding peek_error
  peek_error_cases e n = ground arith

  module _ (words : (a : ℕ) (bs : Bytes) → peek a ≡ word bs → bs ≡ bytes_at mem a 8) where
    -- a piece of the next word, stored behind `n` bytes
    next_piece :
        (n m : ℕ) (bs : Bytes)
        → m ≤ 8
        → peek (raddr + n) ≡ word bs
        → bytes_at mem raddr n ++ take m bs ≡ bytes_at mem raddr (n + m)
    next_piece n m bs h q =
        rw (
          words (raddr + n) bs q,
          take-bytes_at mem (raddr + n) m 8 h,
          bytes_at-append mem raddr n m,
        )

    runt-Prefix :
        (n l : ℕ)
        → n + l ≡ len
        → l < 8
        → Prefix (copy_runt peek (raddr + n) l n (bytes_at mem raddr n))
    unfolding copy_runt
    runt-Prefix n l e lt =
        elim (peek (raddr + n))
            as (λ p.
              peek (raddr + n) ≡ p
              → Prefix (copy_runt peek (raddr + n) l n (bytes_at mem raddr n))) [
                | failed er ↦ λ q. elim (Bool-cases (ltb 0 l)) [
                  | inl more ↦ rw (more, q, copy_runt) (n, refl, omega arith, peek_error_cases er n)
                  | inr done ↦ rw (done, copy_runt) (n, refl, omega arith, inl refl)
                ]
                | word bs ↦ λ q. elim (Bool-cases (ltb 0 l)) [
                  | inl more ↦
                      rw (more, q, copy_runt)
                        (n + l, next_piece n l bs (omega arith) q, omega arith, inl refl)
                  | inr done ↦ rw (done, copy_runt) (n, refl, omega arith, inl refl)
                ]
              ]
          refl

    ahead :
        (n l : ℕ)
        → n + l ≡ len
        → raddr + len < 2 ^ 64
        → 8 ≤ l
        → advance (raddr + n) 8 ≡ raddr + (n + 8)
    ahead n l e top h = omega arith

    words-Prefix :
        (fuel n l : ℕ)
        → n + l ≡ len
        → raddr + len < 2 ^ 64
        → l ≤ fuel
        → Prefix (copy_words peek fuel (raddr + n) l n (bytes_at mem raddr n))
    unfolding copy_words
    words-Prefix zero n l e top le = runt-Prefix n l e (omega arith)
    words-Prefix (suc fuel) n l e top le = elim (Bool-cases (leb 8 l)) [
      | inl more ↦
          elim (peek (raddr + n))
              as (λ p.
                peek (raddr + n) ≡ p
                → Prefix (copy_words peek (suc fuel) (raddr + n) l n (bytes_at mem raddr n))) [
                  | failed er ↦
                      λ q. rw (more, q, copy_words) (n, refl, omega arith, peek_error_cases er n)
                  | word bs ↦ λ q.
                      rw (more, q, copy_words)
                        (rw (next_piece n 8 bs (omega arith) q, ahead n l e top (ground arith))
                          (words-Prefix fuel (n + 8) (l - 8) (ground arith) top (ground arith)))
                ]
            refl
      | inr done ↦ rw (done, copy_words) (runt-Prefix n l e (ground arith))
    ]

    take_first :
        (bs : Bytes)
        → peek raddr ≡ word bs
        → take (first_size (raddr % 8) len) bs ≡ bytes_at mem raddr (first_size (raddr % 8) len)
    take_first bs q =
        rw (words raddr bs q, take-bytes_at mem raddr (first_size (raddr % 8) len) 8 (ground arith))

    first_advance :
        raddr + len < 2 ^ 64
        → advance raddr (first_size (raddr % 8) len) ≡ raddr + first_size (raddr % 8) len
    first_advance top = ground arith

    -- If each word that is read is the memory at its address, then what `pmem_copy` stores of a
    -- region that does not wrap around is the first bytes of it, at most all of them, and it
    -- returns their number or -1.
    pub pmem_copy-Prefix : raddr + len < 2 ^ 64 → Prefix (pmem_copy peek raddr len)
    unfolding pmem_copy
    pmem_copy-Prefix top = elim (Bool-cases (raddr % 8 == 0)) [
      | inl aligned ↦
          rw (aligned, pmem_copy)
            (rw add-zero at (words-Prefix len 0 len (omega arith) top (omega arith)))
      | inr unaligned ↦
          elim (peek raddr) as (λ p. peek raddr ≡ p → Prefix (pmem_copy peek raddr len)) [
            | failed er ↦
                λ q. rw (unaligned, q, pmem_copy) (0, refl, omega arith, peek_error_cases er 0)
            | word bs ↦ λ q.
                let sz = first_size (raddr % 8) len in
                rw (unaligned, q, pmem_copy)
                  (rw (take_first bs q, first_advance top)
                    (words-Prefix len sz (len - sz) (ground arith) top (omega arith)))
          ]
            refl
    ]
