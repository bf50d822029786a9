-- ===== src/Pmem.antt =====
-- src/liberrmark/pmem-copy.c and src/liberrmark/pmem-fwrite.c: a region of the tracee's memory,
-- read a word of 8 bytes at a time (x86_64). The `for` of whole words takes fuel.
pub mod Memory
pub mod Exact
pub mod Sound
pub mod Agree
pub mod Bounds
pub mod Enough
use errmark.Prelude.{
  ℕ, zero, suc, ◌+◌, ◌-◌, ◌%◌, ◌^◌, [], ◌++◌, ◌&&◌, true, false, not, ℤ, pos, minus_one, Bytes,
  length, take, ltb, leb, ◌==◌, if◌then◌else◌,
}
use errmark.Stdio.{Io, fwrite_stdout, fflush_stdout}

-- The answer to PTRACE_PEEKDATA: the bytes of the word, or `errno`.
pub data Peek : Type 0 where
  word : Bytes → Peek
  failed : ℕ → Peek

-- EIO, of errno.h
abbrev pub eio : ℕ
eio = 5

-- The bytes stored in `buf` so far, and what is returned.
pub record Copied : Type 0 where
  pub rv : ℤ
  pub out : Bytes

-- (void *)((char *)raddr + sz)
abbrev pub advance : ℕ → ℕ → ℕ
advance raddr sz = (raddr + sz) % 2 ^ 64

-- What a failed peek makes either function return.
unfoldable pub peek_error : ℕ → ℕ → ℤ
peek_error errno bytes_read =
    if not (bytes_read == 0) && errno == eio then pos bytes_read else minus_one

-- How many bytes of the first word are wanted.
abbrev pub first_size : ℕ → ℕ → ℕ
first_size phase len = if ltb (8 - phase) len then 8 - phase else len

module _ (peek : ℕ → Peek) where
  -- the runt word at the end
  unfoldable pub copy_runt : ℕ → ℕ → ℕ → Bytes → Copied
  unfolding peek_error
  copy_runt raddr len bytes_read out =
      if ltb 0 len
      then elim (peek raddr) [
        | failed errno ↦ record { rv = peek_error errno bytes_read; out = out }
        | word bytes ↦ record { rv = pos (bytes_read + len); out = out ++ take len bytes }
      ]
      else record { rv = pos bytes_read; out = out }

  -- while (len >= sizeof (data))
  unfoldable pub copy_words : ℕ → ℕ → ℕ → ℕ → Bytes → Copied
  unfolding copy_runt
  copy_words zero raddr len bytes_read out = copy_runt raddr len bytes_read out
  copy_words (suc fuel) raddr len bytes_read out = elim (leb 8 len) [
    | true ↦ elim (peek raddr) [
      | failed errno ↦ record { rv = peek_error errno bytes_read; out = out }
      | word bytes ↦
          copy_words fuel (advance raddr 8) (len - 8) (bytes_read + 8) (out ++ take 8 bytes)
    ]
    | false ↦ copy_runt raddr len bytes_read out
  ]

  unfoldable pub pmem_copy : ℕ → ℕ → Copied
  unfolding copy_words
  pmem_copy raddr len =
      let phase = raddr % 8 in
      let sz = first_size phase len in
      if not (phase == 0)
      then elim (peek raddr) [
        | failed errno ↦ record { rv = peek_error errno 0; out = [] }
        | word bytes ↦ copy_words len (advance raddr sz) (len - sz) sz (take sz bytes)
      ]
      else copy_words len raddr len 0 []

  unfoldable pub fwrite_runt : ℕ → ℕ → ℕ → Io → ℤ × Io
  unfolding peek_error fwrite_stdout fflush_stdout
  fwrite_runt raddr len bytes_read io =
      if ltb 0 len
      then elim (peek raddr) [
        | failed errno ↦ (peek_error errno bytes_read, io)
        | word bytes ↦ (pos (bytes_read + len), fflush_stdout (fwrite_stdout (take len bytes) io))
      ]
      else (pos bytes_read, fflush_stdout io)

  unfoldable pub fwrite_words : ℕ → ℕ → ℕ → ℕ → Io → ℤ × Io
  unfolding fwrite_runt
  fwrite_words zero raddr len bytes_read io = fwrite_runt raddr len bytes_read io
  fwrite_words (suc fuel) raddr len bytes_read io = elim (leb 8 len) [
    | true ↦ elim (peek raddr) [
      | failed errno ↦ (peek_error errno bytes_read, io)
      | word bytes ↦
          fwrite_words fuel (advance raddr 8) (len - 8) (bytes_read + 8)
            (fwrite_stdout (take 8 bytes) io)
    ]
    | false ↦ fwrite_runt raddr len bytes_read io
  ]

  -- pmem_fwrite(stdout, tracee, raddr, len)
  unfoldable pub pmem_fwrite : ℕ → ℕ → Io → ℤ × Io
  unfolding fwrite_words
  pmem_fwrite raddr len io =
      let phase = raddr % 8 in
      let sz = first_size phase len in
      if not (phase == 0)
      then elim (peek raddr) [
        | failed errno ↦ (peek_error errno 0, io)
        | word bytes ↦
            fwrite_words len (advance raddr sz) (len - sz) sz (fwrite_stdout (take sz bytes) io)
      ]
      else fwrite_words len raddr len 0 io
