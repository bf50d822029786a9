-- ===== src/Cscript/Errors.antt =====
-- src/libcscript/fshow-errno.c, explain-err.c, decode-emsg.c and guard-malloc.c.
use errmark.Prelude.{
  Option, ℕ, none, some, ◌++◌, ℤ, Bytes, codes, hex, signed_decimal, ◌==◌, if◌then◌else◌,
}
use errmark.Stdio.{Stream}
use errmark.World.{World, M, gets, pure, fprint, eprint, print_stderr, exit_with, ◌>>=◌, ◌>>◌}
use errmark.Cscript.Esym.{decode_esym_r}

-- strerror_r(err, buf, sz) of GNU
unfoldable pub decode_emsg_r : ℤ → World → Bytes
decode_emsg_r err w = w.libc.strerror err

-- fshow_errno(stderr, msg, err)
unfoldable pub fshow_errno : Bytes → ℤ → World → World
unfolding decode_esym_r signed_decimal print_stderr
fshow_errno msg err w =
    let esymp = decode_esym_r 12 err in
    let estr = w.libc.strerror err in
    print_stderr
      (msg
        ++ (signed_decimal err ++ (codes "=" ++ (esymp ++ (codes "=" ++ (estr ++ codes ".\n"))))))
      w

unfoldable pub fexplain_err : Option Stream → ℤ → M (Unit {0})
unfolding decode_emsg_r decode_esym_r signed_decimal fprint
fexplain_err f err = do
  emsgp ← gets (decode_emsg_r err)
  let esymp = decode_esym_r 32 err
  fprint f (
      codes "    "
      ++ (signed_decimal err ++ (codes "=" ++ (esymp ++ (codes "='" ++ (emsgp ++ codes "'\n"))))))

unfoldable pub explain_err : ℤ → M (Unit {0})
unfolding fexplain_err
explain_err err = fexplain_err (some Stream.stdout) err

unfoldable pub eexplain_err : ℤ → M (Unit {0})
unfolding fexplain_err
eexplain_err err w = fexplain_err w.errprint_fh err w

-- `%#zx`
abbrev alternate_hex : ℕ → Bytes
alternate_hex n = if n == 0 then codes "0" else codes "0x" ++ hex n

-- What `guard_malloc` makes of the result of malloc: a block is given by what it happens to hold.
unfoldable pub allocated : ℕ → Option Bytes → M Bytes
unfolding eexplain_err eprint
allocated size (some mem) = pure mem
allocated size none = do
  eprint (codes "malloc(" ++ (alternate_hex size ++ codes ") failed\n"))
  errno ← gets (λ w. w.libc.malloc_errno)
  eexplain_err errno
  exit_with 8

unfoldable pub guard_malloc : ℕ → M Bytes
unfolding allocated
guard_malloc size w = allocated size (w.libc.malloc size) w
