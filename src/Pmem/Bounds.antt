-- ===== src/Pmem/Bounds.antt =====
-- `pmem_copy` stays in its buffer, whatever the peeks answer.
use errmark.Prelude.{
  ◌∷◌, List, Bool-cases, not, ◌&&◌, ltb, leb, ◌==◌, ℕ, zero, suc, ◌+◌, ◌-◌, ◌%◌, ◌≤◌, ◌≡◌, ◌⊎◌, inl,
  inr, refl, pos, minus_one, Bytes, [], ◌++◌, length, length-append, take, arith,
}
use errmark.Pmem.{
  Peek, word, failed, Copied, advance, first_size, eio, peek_error, copy_runt, copy_words,
  pmem_copy,
}

pub take_bound {ℓ} : {A : Type ℓ} (n : ℕ) (xs : List A) → length (take n xs) ≤ n
take_bound zero xs = omega arith
take_bound (suc n) [] = omega arith
take_bound (suc n) (x ∷ xs) = omega (arith, take_bound n xs)

-- At most `len` bytes are stored; what is returned is -1 or a number that is at most `len`.
pub record InBuffer (len : ℕ) (c : Copied) : Type 0 where
  pub stored : length c.out ≤ len
  pub returned : (c.rv ≡ minus_one) ⊎ ((k : ℕ) × (c.rv ≡ pos k) × (k ≤ len))

-- The test on a failed peek gives back the count or -1.
returned_cases :
    (errno n total : ℕ)
    → n ≤ total
    → (peek_error errno n ≡ minus_one) ⊎ ((k : ℕ) × (peek_error errno n ≡ pos k) × (k ≤ total))
unfolding peek_error
returned_cases errno n total h = elim (Bool-cases (not (n == 0) && errno == eio)) [
  | inl short ↦ rw short (inr (n, refl, h))
  | inr nothing ↦ rw nothing (inl refl)
]

module _ (peek : ℕ → Peek) (total : ℕ) where
  stopped_here :
      (errno n : ℕ) (out : Bytes)
      → n ≤ total
      → length out ≤ n
      → InBuffer total (record { rv = peek_error errno n; out = out })
  stopped_here errno n out h k = record {
    stored = omega arith;
    returned = returned_cases errno n total h;
  }

  more_stored : (out bs : Bytes) (n m : ℕ) → length out ≤ n → length (out ++ take m bs) ≤ n + m
  more_stored out bs n m h = omega (arith, length-append out (take m bs), take_bound m bs)

  runt-InBuffer :
      (a len n : ℕ) (out : Bytes)
      → n + len ≡ total
      → length out ≤ n
      → InBuffer total (copy_runt peek a len n out)
  unfolding copy_runt
  runt-InBuffer a len n out e h =
      elim (peek a) as (λ p. peek a ≡ p → InBuffer total (copy_runt peek a len n out)) [
        | failed er ↦ λ q. elim (Bool-cases (ltb 0 len)) [
          | inl more ↦ rw (more, q, copy_runt) (stopped_here er n out (omega arith) h)
          | inr done ↦
              rw (done, copy_runt)
                (record { stored = omega arith; returned = inr (n, refl, omega arith) })
        ]
        | word bs ↦ λ q. elim (Bool-cases (ltb 0 len)) [
          | inl more ↦
              rw (more, q, copy_runt)
                (record {
                  stored = let b = more_stored out bs n len h in omega arith;
                  returned = inr (n + len, refl, omega arith);
                })
          | inr done ↦
              rw (done, copy_runt)
                (record { stored = omega arith; returned = inr (n, refl, omega arith) })
        ]
      ]
        refl

  words-InBuffer :
      (fuel a len n : ℕ) (out : Bytes)
      → n + len ≡ total
      → length out ≤ n
      → InBuffer total (copy_words peek fuel a len n out)
  unfolding copy_words
  words-InBuffer zero a len n out e h = runt-InBuffer a len n out e h
  words-InBuffer (suc fuel) a len n out e h = elim (Bool-cases (leb 8 len)) [
    | inl more ↦
        elim (peek a)
            as (λ p. peek a ≡ p → InBuffer total (copy_words peek (suc fuel) a len n out)) [
              | failed er ↦ λ q. rw (more, q, copy_words) (stopped_here er n out (omega arith) h)
              | word bs ↦ λ q.
                  rw (more, q, copy_words)
                    (words-InBuffer fuel (advance a 8) (len - 8) (n + 8) (out ++ take 8 bs)
                      (ground arith) (more_stored out bs n 8 h))
            ]
          refl
    | inr done ↦ rw (done, copy_words) (runt-InBuffer a len n out e h)
  ]

-- Whatever the peeks answer, `pmem_copy` stores at most `len` bytes, and returns -1 or a number
-- that is at most `len`.
pub pmem_copy-InBuffer : (peek : ℕ → Peek) (raddr len : ℕ) → InBuffer len (pmem_copy peek raddr len)
unfolding pmem_copy
pmem_copy-InBuffer peek raddr len =
    let sz = first_size (raddr % 8) len in
    elim (Bool-cases (raddr % 8 == 0)) [
      | inl aligned ↦
          rw (aligned, pmem_copy)
            (words-InBuffer peek len len raddr len 0 [] (omega arith) (omega arith))
      | inr unaligned ↦
          elim (peek raddr) as (λ p. peek raddr ≡ p → InBuffer len (pmem_copy peek raddr len)) [
            | failed er ↦ λ q.
                rw (unaligned, q, pmem_copy)
                  (stopped_here peek len er 0 [] (omega arith) (omega arith))
            | word bs ↦ λ q.
                rw (unaligned, q, pmem_copy)
                  (words-InBuffer peek len len (advance raddr sz) (len - sz) sz (take sz bs)
                    (ground arith) (take_bound sz bs))
          ]
            refl
    ]
