-- ===== src/Pmem/Agree.antt =====
-- `pmem_fwrite` shows on stdout what `pmem_copy` stores, and returns the same count.
use errmark.Prelude.{
  ℕ, ℤ, zero, suc, ◌+◌, ◌-◌, ◌%◌, ◌≡◌, refl, sym, Bytes, take, [], ◌++◌, append_assoc, append-nil,
  arith,
}
use errmark.Stdio.{Io, fwrite_stdout}
use errmark.Stdio.Shown.{shown, shown-fwrite_stdout, shown-fflush_stdout}
use errmark.Pmem.{
  Peek, word, failed, Copied, advance, first_size, copy_runt, copy_words, pmem_copy, fwrite_runt,
  fwrite_words, pmem_fwrite,
}

-- The result of the one call and of the other, after `base` had been shown.
abbrev pub Agrees : Bytes → ℤ × Io → Copied → Type 0
Agrees base (rv, io) c = (rv ≡ c.rv) × (shown io ≡ base ++ c.out)

module _ (peek : ℕ → Peek) (base : Bytes) where
  shown_more :
      (io : Io) (out piece : Bytes)
      → shown io ≡ base ++ out
      → shown (fwrite_stdout piece io) ≡ base ++ (out ++ piece)
  shown_more io out piece h = simp (shown-fwrite_stdout, h, append_assoc)

  runt-Agrees :
      (a len n : ℕ) (out : Bytes) (io : Io)
      → shown io ≡ base ++ out
      → Agrees base (fwrite_runt peek a len n io) (copy_runt peek a len n out)
  unfolding fwrite_runt copy_runt
  runt-Agrees a len n out io h =
      elim (peek a)
          as (λ p.
            peek a ≡ p → Agrees base (fwrite_runt peek a len n io) (copy_runt peek a len n out)) [
              | failed e ↦ λ q. ground (arith, shown-fflush_stdout io)
              | word bytes ↦ λ q. ground (
                arith,
                shown-fflush_stdout io,
                shown-fflush_stdout (fwrite_stdout (take len bytes) io),
                shown_more io out (take len bytes) h,
              )
            ]
        refl

  words-Agrees :
      (fuel a len n : ℕ) (out : Bytes) (io : Io)
      → shown io ≡ base ++ out
      → Agrees base (fwrite_words peek fuel a len n io) (copy_words peek fuel a len n out)
  unfolding fwrite_words copy_words
  words-Agrees zero a len n out io h = runt-Agrees a len n out io h
  words-Agrees (suc fuel) a len n out io h =
      elim (peek a)
          as (λ p.
            peek a ≡ p
            → Agrees base (fwrite_words peek (suc fuel) a len n io)
                (copy_words peek (suc fuel) a len n out)) [
                  | failed e ↦ λ q. ground (arith, runt-Agrees a len n out io h)
                  | word bytes ↦ λ q. ground (
                    arith,
                    runt-Agrees a len n out io h,
                    words-Agrees fuel (advance a 8) (len - 8) (n + 8) (out ++ take 8 bytes)
                        (fwrite_stdout (take 8 bytes) io) (shown_more io out (take 8 bytes) h),
                  )
                ]
        refl

-- Whatever the peeks answer, `pmem_fwrite` returns what `pmem_copy` returns, and shows on stdout,
-- behind what was there, the bytes that `pmem_copy` stores.
pub pmem_fwrite-Agrees :
    (peek : ℕ → Peek) (raddr len : ℕ) (io : Io)
    → ((pmem_fwrite peek raddr len io).0 ≡ (pmem_copy peek raddr len).rv)
      × (shown (pmem_fwrite peek raddr len io).1 ≡ shown io ++ (pmem_copy peek raddr len).out)
unfolding pmem_fwrite pmem_copy
pmem_fwrite-Agrees peek raddr len io =
    let sz = first_size (raddr % 8) len in
    let start = sym (append-nil (shown io)) in
    elim (peek raddr)
        as (λ p.
          peek raddr ≡ p
          → Agrees (shown io) (pmem_fwrite peek raddr len io) (pmem_copy peek raddr len)) [
            | failed e ↦
                λ q. ground (arith, start, words-Agrees peek (shown io) len raddr len 0 [] io start)
            | word bytes ↦ λ q. ground (
              arith,
              start,
              words-Agrees peek (shown io) len raddr len 0 [] io start,
              words-Agrees peek (shown io) len (advance raddr sz) (len - sz) sz (take sz bytes)
                  (fwrite_stdout (take sz bytes) io)
                  (shown_more peek (shown io) io [] (take sz bytes) start),
            )
          ]
      refl

-- It writes to stdout alone.
runt-rest :
    (peek : ℕ → Peek) (a len n : ℕ) (io : Io)
    → ((fwrite_runt peek a len n io).1.copied ≡ io.copied)
      × ((fwrite_runt peek a len n io).1.traced ≡ io.traced)
unfolding fwrite_runt
runt-rest peek a len n io = ground arith

words-rest :
    (peek : ℕ → Peek) (fuel a len n : ℕ) (io : Io)
    → ((fwrite_words peek fuel a len n io).1.copied ≡ io.copied)
      × ((fwrite_words peek fuel a len n io).1.traced ≡ io.traced)
unfolding fwrite_words fwrite_stdout
words-rest peek zero a len n io = runt-rest peek a len n io
words-rest peek (suc fuel) a len n io = grind (arith, runt-rest, words-rest peek fuel)

pub pmem_fwrite-rest :
    (peek : ℕ → Peek) (raddr len : ℕ) (io : Io)
    → ((pmem_fwrite peek raddr len io).1.copied ≡ io.copied)
      × ((pmem_fwrite peek raddr len io).1.traced ≡ io.traced)
unfolding pmem_fwrite fwrite_stdout
pmem_fwrite-rest peek raddr len io = grind (arith, words-rest peek)
