-- ===== src/Pmem/Exact.antt =====
-- When `pmem_copy` copies the whole region, and when it copies nothing.
use native.Mathlib.Decide.{ℕ_discrete}
use native.Mathlib.Nat.{add-zero}
use errmark.Prelude.{
  ℕ, zero, suc, ◌+◌, ◌-◌, ◌*◌, ◌/◌, ◌%◌, ◌^◌, ◌≤◌, ◌<◌, ◌≡◌, ◌≢◌, ◌∙◌, sym, ap, Bool, Bool-cases,
  inl, inr, true, false, [], ◌++◌, append-nil, pos, minus_one, Bytes, leb, take, arith,
}
use errmark.Pmem.{Peek, word, first_size, copy_runt, copy_words, peek_error, pmem_copy}
use errmark.Pmem.Memory.{bytes_at, Traced, take-bytes_at, bytes_at_grows}

module _ {peek : ℕ → Peek} {mem : ℕ → ℕ} {readable : ℕ → Bool} (t : Traced peek mem readable) where
  -- A readable byte at an aligned address makes its word readable.
  peek_aligned : (a : ℕ) → a % 8 ≡ 0 → readable a ≡ true → peek a ≡ word (bytes_at mem a 8)
  peek_aligned a h r = t.peek_word a λ i lt. t.whole_words (a + i) ∙ ap readable (down i lt) ∙ r
    where
      down : (i : ℕ) → i < 8 → (a + i) / 8 * 8 ≡ a
      down i lt = omega arith

  -- The hypotheses of the loop, for what is left of the region.
  abbrev Left : ℕ → ℕ → Type 0
  Left a len =
      (len ≢ 0 → a % 8 ≡ 0) × (a + len < 2 ^ 64) × ((i : ℕ) → i < len → readable (a + i) ≡ true)

  peek_first : (a len : ℕ) → Left a len → 0 < len → peek a ≡ word (bytes_at mem a 8)
  peek_first a len l h =
      peek_aligned a (l.0 λ e. omega arith) (ap readable (sym (add-zero a)) ∙ l.2 0 h)

  Left-next : (a len : ℕ) → Left a len → 8 ≤ len → Left (a + 8) (len - 8)
  Left-next a len l h = (
    λ e. let al : a % 8 ≡ 0 = l.0 λ z. omega arith in omega arith,
    omega arith,
    λ i lt. ap readable (move i) ∙ l.2 (8 + i) (omega arith),
  )
    where
      move : (i : ℕ) → a + 8 + i ≡ a + (8 + i)
      move i = omega arith

  runt_exact :
      (a len n : ℕ) (out : Bytes)
      → Left a len
      → len < 8
      → copy_runt peek a len n out ≡ record { rv = pos (n + len); out = out ++ bytes_at mem a len }
  unfolding copy_runt
  runt_exact a zero n out l lt = rw (add-zero, append-nil)
  runt_exact a (suc k) n out l lt =
      ground
        (arith, peek_first a (suc k) l (omega arith), take-bytes_at mem a (suc k) 8 (omega arith))

  words_exact :
      (fuel a len n : ℕ) (out : Bytes)
      → Left a len
      → len ≤ fuel
      → copy_words peek fuel a len n out
        ≡ record { rv = pos (n + len); out = out ++ bytes_at mem a len }
  unfolding copy_words
  words_exact zero a len n out l le = runt_exact a len n out l (omega arith)
  words_exact (suc fuel) a len n out l le = elim (Bool-cases (leb 8 len)) [
    | inl more ↦ ground (
      arith,
      peek_first a len l (ground arith),
      words_exact fuel (a + 8) (len - 8) (n + 8) (out ++ take 8 (bytes_at mem a 8))
          (Left-next a len l (ground arith)) (ground arith),
      bytes_at_grows mem out a 8 len (ground arith) (omega arith),
    )
    | inr done ↦ ground (arith, runt_exact a len n out l (ground arith))
  ]

  Left-first :
      (raddr len : ℕ)
      → raddr + len < 2 ^ 64
      → ((i : ℕ) → i < len → readable (raddr + i) ≡ true)
      → Left (raddr + first_size (raddr % 8) len) (len - first_size (raddr % 8) len)
  Left-first raddr len top r = (
    ground arith,
    ground arith,
    λ i lt. ap readable (omega arith) ∙ r (first_size (raddr % 8) len + i) (ground arith),
  )

  unaligned_exact :
      (raddr len : ℕ)
      → raddr + len < 2 ^ 64
      → ((i : ℕ) → i < len → readable (raddr + i) ≡ true)
      → raddr % 8 ≢ 0
      → ((i : ℕ) → i < 8 → readable (raddr + i) ≡ true)
      → pmem_copy peek raddr len ≡ record { rv = pos len; out = bytes_at mem raddr len }
  unfolding pmem_copy
  unaligned_exact raddr len top r un window =
      let sz = first_size (raddr % 8) len in
      ground (
        arith,
        t.peek_word raddr window,
        words_exact len (raddr + sz) (len - sz) sz (take sz (bytes_at mem raddr 8))
            (Left-first raddr len top r) (ground arith),
        bytes_at_grows mem [] raddr sz len (ground arith) (ground arith),
      )

  -- A region that is readable and does not wrap around is copied whole and exactly, and its length
  -- returned, if moreover the 8 bytes at its start are readable where it starts unaligned.
  pub pmem_copy-exact :
      (raddr len : ℕ)
      → raddr + len < 2 ^ 64
      → ((i : ℕ) → i < len → readable (raddr + i) ≡ true)
      → (raddr % 8 ≢ 0 → (i : ℕ) → i < 8 → readable (raddr + i) ≡ true)
      → pmem_copy peek raddr len ≡ record { rv = pos len; out = bytes_at mem raddr len }
  unfolding pmem_copy
  pmem_copy-exact raddr len top r window = elim (ℕ_discrete (raddr % 8) 0) [
    | yes al ↦ ground (arith, words_exact len raddr len 0 [] ((λ _. al), top, r) (omega arith))
    | no un ↦ unaligned_exact raddr len top r un (window un)
  ]

  -- An unaligned start whose first 8 bytes are not all readable fails with -1 and stores nothing,
  -- however short the region is.
  pub pmem_copy-unaligned_window :
      (raddr len i : ℕ)
      → raddr % 8 ≢ 0
      → i < 8
      → readable (raddr + i) ≡ false
      → pmem_copy peek raddr len ≡ record { rv = minus_one; out = [] }
  unfolding pmem_copy peek_error
  pmem_copy-unaligned_window raddr len i un lt r = ground (arith, t.peek_fails raddr i lt r)
