-- ===== src/Stdio.antt =====
-- What errmark sends out through stdio and write(2): the C library's streams as the program uses
-- them (`fwrite`, `fputs`, `fprintf`, `fflush` and `write` in src/liberrmark and src/libcscript).
-- `stderr` is unbuffered, and `stdout` has a buffer; how much of it stdio hands to the kernel on
-- its own account, after a write to the stream, is the function `spill`.
pub mod Shown
use errmark.Prelude.{ℕ, List, [], ◌∷◌, ◌++◌, Bytes, take, drop}

-- The two streams that a FILE pointer of this program may stand for.
pub data Stream : Type 0 where
  stdout stderr : Stream

-- One write(2): the descriptor and the bytes.
pub record Chunk : Type 0 where
  pub to : ℕ
  pub text : Bytes

pub record Io : Type 0 where
  pub pending : Bytes
  pub spill : Bytes → ℕ
  pub sent : List Chunk
  pub copied : Bytes
  pub traced : Bytes

-- write(fd, text, strlen(text))
unfoldable pub write : ℕ → Bytes → Io → Io
write fd text io = record io { sent = io.sent ++ record { to = fd; text = text } ∷ [] }

-- fflush(stdout); a call on the unbuffered stderr does nothing.
unfoldable pub fflush_stdout : Io → Io
unfolding write
fflush_stdout io = record (write 1 io.pending io) { pending = [] }

-- fwrite, fputs or fprintf to stdout
unfoldable pub fwrite_stdout : Bytes → Io → Io
unfolding write
fwrite_stdout text io =
    let buf = io.pending ++ text in
    let n = io.spill buf in record (write 1 (take n buf) io) { pending = drop n buf }

-- the same to either stream
unfoldable pub fwrite : Stream → Bytes → Io → Io
unfolding write fwrite_stdout
fwrite Stream.stdout text io = fwrite_stdout text io
fwrite Stream.stderr text io = write 2 text io

-- fwrite to the file of the copy, `cmd->copy_fh`
unfoldable pub fwrite_copy : Bytes → Io → Io
fwrite_copy text io = record io { copied = io.copied ++ text }

-- fprintf to the function boundary trace, `cmd->trace_fbt`
unfoldable pub fwrite_trace : Bytes → Io → Io
fwrite_trace text io = record io { traced = io.traced ++ text }
