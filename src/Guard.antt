-- ===== src/Guard.antt =====
-- src/liberrmark/guard-ptrace.c.
pub mod Chunks
pub mod Ending
use errmark.Prelude.{
  ℕ, Option, none, some, not, true, ◌&&◌, [], ◌∷◌, ◌++◌, ℤ, pos, eq_ℤ, minus_one, Bytes, codes,
  decimal, ◌==◌, if◌then◌else◌,
}
use errmark.Stdio.{fwrite_trace}
use errmark.World.{World, Request, M, ret, abort, on_io, on_cmd}
use errmark.Marks.{mark_close}
use errmark.Cscript.Errors.{fshow_errno}

-- The numbers of `enum __ptrace_request`.
abbrev pub request_number : Request → ℕ
request_number Request.traceme = 0
request_number Request.getregs = 12
request_number (Request.setregs regs) = 13
request_number Request.syscall = 24

-- ESRCH, of errno.h
abbrev pub esrch : ℤ
esrch = pos 3

-- `err`: 0, or `errno` where the call returned -1
abbrev pub err_of : Option ℤ → ℤ
err_of none = pos 0
err_of (some errno) = errno

abbrev pub rc_of : Option ℤ → ℤ
rc_of none = pos 0
rc_of (some errno) = minus_one

-- `if (cmd->trace_fbt) fprintf(cmd->trace_fbt, text)`
unfoldable pub trace : Bytes → World → World
unfolding fwrite_trace
trace text w = if w.cmd.trace_fbt then on_io (fwrite_trace text) w else w

abbrev pub ask : Request → World → World
ask request w = record w { requests = w.requests ++ request ∷ [] }

-- `if (cmd->mark_state) mark_close()`
unfoldable pub close_marks : World → World
unfolding mark_close
close_marks w = if w.cmd.mark_state == 0 then w else mark_close w

-- The world after the call, with the boundary trace and the flag.
unfoldable pub after_ptrace : Request → ℤ → World → World
after_ptrace request err w =
    let called = trace (codes "> ptrace(" ++ (decimal (request_number request) ++ codes ")\n")) w in
    let w' = trace (codes "< ptrace\n") (ask request called) in
    if not (eq_ℤ err esrch) then on_cmd (λ c. record c { child_exited = true }) w' else w'

-- `answer` is the kernel's: success, or an errno.
unfoldable pub guard_ptrace : Request → Option ℤ → M ℤ
guard_ptrace request answer w =
    let err = err_of answer in
    let w' = after_ptrace request err w in
    if not (eq_ℤ err (pos 0)) && not (eq_ℤ err esrch)
    then abort (fshow_errno (codes "ptrace() failed - ") err (close_marks w'))
    else ret (rc_of answer) w'
