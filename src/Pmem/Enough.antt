-- ===== src/Pmem/Enough.antt =====
-- The fuel of the loops over whole words.
use errmark.Prelude.{
  ℕ, zero, suc, ◌+◌, ◌-◌, ◌*◌, ◌/◌, ◌≤◌, ◌<◌, ◌≡◌, refl, Bytes, ◌++◌, take, arith,
}
use errmark.Stdio.{Io, fwrite_stdout}
use errmark.Pmem.{Peek, word, failed, advance, copy_words, fwrite_words}

module _ (peek : ℕ → Peek) where
  copy_runs_out :
      (f g a len n : ℕ) (out : Bytes)
      → len < 8 * suc f
      → len < 8 * suc g
      → copy_words peek f a len n out ≡ copy_words peek g a len n out
  unfolding copy_words
  copy_runs_out zero zero a len n out h k = refl
  copy_runs_out zero (suc g) a len n out h k = ground arith
  copy_runs_out (suc f) zero a len n out h k = ground arith
  copy_runs_out (suc f) (suc g) a len n out h k =
      elim (peek a)
          as (λ p.
            peek a ≡ p
            → copy_words peek (suc f) a len n out ≡ copy_words peek (suc g) a len n out) [
              | failed errno ↦ λ q. ground arith
              | word bs ↦ λ q.
                  ground
                    (arith, copy_runs_out f g (advance a 8) (len - 8) (n + 8) (out ++ take 8 bs))
            ]
        refl

  fwrite_runs_out :
      (f g a len n : ℕ) (io : Io)
      → len < 8 * suc f
      → len < 8 * suc g
      → fwrite_words peek f a len n io ≡ fwrite_words peek g a len n io
  unfolding fwrite_words
  fwrite_runs_out zero zero a len n io h k = refl
  fwrite_runs_out zero (suc g) a len n io h k = ground arith
  fwrite_runs_out (suc f) zero a len n io h k = ground arith
  fwrite_runs_out (suc f) (suc g) a len n io h k =
      elim (peek a)
          as (λ p.
            peek a ≡ p
            → fwrite_words peek (suc f) a len n io ≡ fwrite_words peek (suc g) a len n io) [
              | failed errno ↦ λ q. ground arith
              | word bs ↦ λ q. ground (
                arith,
                fwrite_runs_out f g (advance a 8) (len - 8) (n + 8) (fwrite_stdout (take 8 bs) io),
              )
            ]
        refl

  -- The loops of `pmem_copy` and `pmem_fwrite` over whole words end after at most len / 8 rounds:
  -- with that fuel or more, they give what they give with the fuel `len` that both functions start
  -- with.
  pub words_enough :
      (fuel a len n : ℕ) (out : Bytes) (io : Io)
      → len / 8 ≤ fuel
      → (copy_words peek fuel a len n out ≡ copy_words peek len a len n out)
        × (fwrite_words peek fuel a len n io ≡ fwrite_words peek len a len n io)
  words_enough fuel a len n out io h = (
    copy_runs_out fuel len a len n out (omega arith) (omega arith),
    fwrite_runs_out fuel len a len n io (omega arith) (omega arith),
  )
