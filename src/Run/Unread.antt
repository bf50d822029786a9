-- ===== src/Run/Unread.antt =====
-- What is passed on of a write to stderr, whatever of it can be read.
use errmark.Prelude.{
  ℕ, ◌≤◌, some, ◌++◌, Bytes, length, length-append, take-length, drop-length, length-drop, take,
  drop, ◌≡◌, refl, arith,
}
use errmark.Stdio.{fwrite_copy}
use errmark.Stdio.Shown.{shown, shown-fwrite_stdout}
use errmark.World.{World}
use errmark.World.Returns.{Returns}
use errmark.Pmem.{Peek, pmem_copy}
use errmark.Pmem.Bounds.{pmem_copy-InBuffer}
use errmark.Cscript.Errors.{guard_malloc, allocated}
use errmark.Writes.{copy_to_both}

-- A text of `len` bytes: first what was stored, and then what the block held from there on.
pub record Mixed (len : ℕ) (out ebuf : Bytes) (held : Bytes) : Type 0 where
  pub whole : length held ≡ len
  pub first : take (length out) held ≡ out
  pub rest : drop (length out) held ≡ drop (length out) ebuf

mixed :
    (len : ℕ) (out ebuf : Bytes)
    → length out ≤ len
    → length ebuf ≡ len
    → Mixed len out ebuf (out ++ drop (length out) ebuf)
mixed len out ebuf h e = record {
  whole = omega (
    arith,
    length-append out (drop (length out) ebuf),
    length-drop (length out) ebuf (omega arith),
  );
  first = take-length out (drop (length out) ebuf);
  rest = drop-length out (drop (length out) ebuf);
}

-- Of a write to stderr that is copied, whatever the peeks answer, exactly as many bytes as the
-- write has go to stdout and to the copy: first those that `pmem_copy` stored, and behind them what
-- the block of malloc held. malloc gives a block of that size.
pub copy_to_both-Mixed :
    (peek : ℕ → Peek) (addr len : ℕ) (ebuf : Bytes) (w : World)
    → w.libc.malloc len ≡ some ebuf
    → length ebuf ≡ len
    → Returns (copy_to_both peek addr len w) (λ _ w'.
      (held : Bytes) × Mixed len (pmem_copy peek addr len).out ebuf held
      × (shown w'.io ≡ shown w.io ++ held)
      × (w'.io.copied ≡ w.io.copied ++ held))
unfolding copy_to_both guard_malloc allocated fwrite_copy shown
copy_to_both-Mixed peek addr len ebuf w m e =
    let out = (pmem_copy peek addr len).out in
    let held = out ++ drop (length out) ebuf in
    rw m (
      held,
      mixed len out ebuf (pmem_copy-InBuffer peek addr len).stored e,
      shown-fwrite_stdout held w.io,
      refl,
    )
