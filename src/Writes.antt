-- ===== src/Writes.antt =====
-- src/liberrmark/run-program.c: what `ptrace_cmd` does where the traced child stops at a write.
-- What the kernel answers during one round of the loop is a `Stop`.
use errmark.Prelude.{
  ℕ, ◌-◌, ◌%◌, ◌^◌, Bool, Option, true, false, ◌&&◌, ◌||◌, ◌++◌, ℤ, pos, negsuc, eq_ℤ, Bytes, codes,
  decimal, signed_decimal, hex, length, drop, ltb, ◌==◌, if◌then◌else◌,
}
use errmark.Stdio.{fwrite_stdout, fwrite_copy}
use errmark.World.{
  World, Regs, Request, M, ret, on_io, on_cmd, gets, modify, pure, print_stderr, ◌>>=◌, ◌>>◌,
}
use errmark.Marks.{mark_open, before_write, after_write}
use errmark.Pmem.{Peek, pmem_copy, pmem_fwrite}
use errmark.Guard.{guard_ptrace, trace}
use errmark.Cscript.Errors.{guard_malloc}

-- SYS_write on x86_64
abbrev pub sys_write : ℕ
sys_write = 1

-- (int)reg
abbrev pub as_int : ℕ → ℤ
as_int reg =
    let low = reg % 2 ^ 32 in if ltb low (2 ^ 31) then pos low else negsuc (2 ^ 32 - 1 - low)

-- One round: the status that wait() stores (0 where it fails), the registers, the errno of each
-- of the three requests, and the answers to PTRACE_PEEKDATA.
pub record Stop : Type 0 where
  pub status : ℕ
  pub regs : Regs
  pub getregs_errno : Option ℤ
  pub setregs_errno : Option ℤ
  pub syscall_errno : Option ℤ
  pub peek : ℕ → Peek

-- The variables of `ptrace_cmd` that live across the rounds.
pub record Locals : Type 0 where
  pub regs : Regs
  pub toggle : ℕ
  pub wfd : ℤ
  pub waddr : ℕ
  pub wlen : ℕ

abbrev pub marked_fd : ℤ → Bool
marked_fd fd = eq_ℤ fd (pos 1) || eq_ℤ fd (pos 2)

-- `if (debug) fprintf(stderr, text)`
unfoldable pub debug_say : Bool → Bytes → World → World
unfolding print_stderr
debug_say b text w = if b then print_stderr text w else w

-- `%p` of glibc
abbrev pub percent_p : ℕ → Bytes
percent_p addr = if addr == 0 then codes "(nil)" else codes "0x" ++ hex addr

-- The messages under `debug` at the start of a write.
unfoldable pub debug_write : Locals → World → World
debug_write l w =
    let first = debug_say w.debug (codes "wfd  =" ++ (signed_decimal l.wfd ++ codes "\n")) w in
    let second = debug_say w.debug (codes "waddr=" ++ (percent_p l.waddr ++ codes "\n")) first in
    debug_say w.debug (codes "wlen =" ++ (decimal l.wlen ++ codes "\n")) second

-- `if (cmd->mark_state == 0) …`
unfoldable pub open_marks : World → World
open_marks w =
    if w.cmd.mark_state == 0 then on_cmd (λ c. record c { mark_state = 1 }) (mark_open w) else w

-- The data of a write to stderr, by way of a buffer: what was not read of it stays as malloc left it.
unfoldable pub copy_to_both : (ℕ → Peek) → ℕ → ℕ → M (Unit {0})
copy_to_both peek waddr wlen = do
  ebuf ← guard_malloc wlen
  let got = pmem_copy peek waddr wlen
  let held = got.out ++ drop (length got.out) ebuf
  modify (on_io (fwrite_stdout held))
  modify (on_io (fwrite_copy held))

unfoldable pub copy_to_stdout : (ℕ → Peek) → ℕ → ℕ → World → World
copy_to_stdout peek waddr wlen = on_io (λ io. (pmem_fwrite peek waddr wlen io).1)

-- The data of the write: to stdout, and to the copy if it is of stderr and there is a copy.
unfoldable pub pass_on : (ℕ → Peek) → ℤ → ℕ → ℕ → M (Unit {0})
pass_on peek wfd waddr wlen w =
    if eq_ℤ wfd (pos 2) && w.cmd.copy_fh
    then copy_to_both peek waddr wlen w
    else ret tt (copy_to_stdout peek waddr wlen w)

-- The registers with which the write goes to the kernel.
abbrev pub nullified : Bool → Regs → Regs
nullified true regs = record regs { reg_arg3 = 0 }
nullified false regs = regs

-- the start of a write to stdout or stderr
unfoldable pub write_marked : Stop → Locals → M Locals
write_marked stop l = do
  modify open_marks
  modify (before_write l.wfd l.waddr l.wlen)
  nullify ← gets (λ w. w.cmd.nullify)
  let sent = nullified nullify l.regs
  _ ← guard_ptrace (Request.setregs sent) stop.setregs_errno
  modify (trace (codes "> write\n"))
  pass_on stop.peek l.wfd l.waddr l.wlen
  pure (record l { regs = sent })

-- The variables once the arguments of the write are stored in them.
abbrev pub at_entry : Regs → ℤ → Locals
at_entry regs wfd = record {
  regs = regs;
  toggle = 1;
  wfd = wfd;
  waddr = regs.reg_arg2;
  wlen = regs.reg_arg3;
}

-- the start of a write, `toggle == 0`
unfoldable pub write_enter : Stop → Regs → M Locals
write_enter stop regs w =
    let l = at_entry regs (as_int regs.reg_arg1) in
    (if marked_fd l.wfd then write_marked stop l else pure l) (debug_write l w)

-- the end of a write
unfoldable pub write_leave : Stop → Locals → M Locals
write_leave stop l w =
    let marked = marked_fd l.wfd in
    let w' = if marked then after_write l.wfd l.waddr l.wlen w else w in
    let sent = if marked && w.cmd.nullify then record (l.regs) { reg_retn = l.wlen } else l.regs in
    (do
      _ ← guard_ptrace (Request.setregs sent) stop.setregs_errno
      modify (trace (codes "< write\n"))
      pure (record l { regs = sent; toggle = 0 }))
      w'

unfoldable pub write_stop : Stop → Locals → M Locals
write_stop stop l w =
    (do
      l' ← (if l.toggle == 0 then write_enter stop l.regs else write_leave stop l)
      modify (λ v. debug_say v.cmd.debug (codes ".\n") v)
      pure l')
      (debug_say w.debug (codes "SYS_write; toggle=" ++ (decimal l.toggle ++ codes "\n")) w)
