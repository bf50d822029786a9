-- ===== src/Run.antt =====
-- src/liberrmark/run-program.c: the loop over the stops of the traced child. A run is a list
-- of stops, in order; the part of a round that is about a write is in Writes.
pub mod Shows
pub mod Switch
pub mod Steps
pub mod PassOn
pub mod Script
pub mod Weave
pub mod Rounds
pub mod Closing
pub mod Viewed
pub mod Leaves
pub mod Terminal
pub mod Lost
pub mod Streams
pub mod Asked
pub mod Requests
pub mod Events
pub mod Flagged
pub mod Tracee
pub mod Launch
pub mod Program
pub mod Untraced
pub mod Sound
pub mod Ends
pub mod Child
pub mod Fails
pub mod Total
pub mod Unread
pub mod Partial
pub mod Apart
use errmark.Prelude.{
  ℕ, ◌-◌, ◌%◌, ◌^◌, Bool, Option, none, some, not, true, false, ◌&&◌, ◌||◌, List, [], ◌∷◌, ◌++◌, ℤ,
  pos, negsuc, eq_ℤ, minus_one, Bytes, codes, decimal, signed_decimal, hex, hex2, length, drop, ltb,
  ◌==◌, if◌then◌else◌,
}
use errmark.Stdio.{fwrite_stdout, fwrite_copy}
use errmark.World.{
  World, Regs, Request, M, ret, wait, on_io, on_cmd, gets, modify, when, pure, print_stderr, eprint,
  exit_with, ◌>>=◌, ◌>>◌,
}
use errmark.Marks.{mark_open, before_write, after_write}
use errmark.Pmem.{Peek, pmem_copy, pmem_fwrite}
use errmark.Guard.{guard_ptrace, close_marks, trace}
use errmark.Cscript.Errors.{guard_malloc}
use errmark.Cscript.WaitStatus.{wifstopped, exit_code, fshow_wait_status}
use errmark.Writes.{
  sys_write, as_int, Stop, Locals, marked_fd, debug_say, percent_p, debug_write, open_marks,
  copy_to_both, copy_to_stdout, pass_on, nullified, write_marked, at_entry, write_enter,
  write_leave, write_stop,
}

abbrev pub sigtrap : ℕ
sigtrap = 5

abbrev pub sigchld : ℕ
sigchld = 17

-- How a round ends: with the next round, or by `break`, with `exit_status`.
pub data Round : Type 0 where
  next : Locals → Round
  broke : ℕ → Round

-- The test on the status that ends the loop.
abbrev pub ends : ℕ → Bool
ends status =
    not (status == 0)
    && not (wifstopped status && (exit_code status == sigtrap || exit_code status == sigchld))

-- the part of a round behind GETREGS
unfoldable pub resume : Stop → Locals → M Round
resume stop l = do
  l' ← (if l.regs.reg_syscall == sys_write then write_stop stop l else pure l)
  _ ← guard_ptrace Request.syscall stop.syscall_errno
  pure (next l')

-- A failed GETREGS leaves `regs` as it was.
abbrev pub fetched : Option ℤ → Regs → Regs → Regs
fetched none got old = got
fetched (some errno) got old = old

unfoldable pub examine : Stop → Locals → M Round
examine stop l = do
  rc ← guard_ptrace Request.getregs stop.getregs_errno
  exited ← gets (λ v. v.cmd.child_exited)
  if eq_ℤ rc minus_one && exited
      then pure (broke 0)
      else resume stop (record l { regs = fetched stop.getregs_errno stop.regs l.regs })

-- the round of a status that ends the loop
unfoldable pub end_round : ℕ → M Round
end_round status w =
    let w' = close_marks w in
    (do
      when w'.cmd.verbose (eprint (codes "status=0x" ++ (hex2 status ++ codes "\n")))
      pure (broke status))
      w'

unfoldable pub round : Stop → Locals → M Round
round stop l = if ends stop.status then end_round stop.status else examine stop l

-- `%s` of glibc
abbrev pub percent_s : Option Bytes → Bytes
percent_s none = codes "(null)"
percent_s (some text) = text

-- what follows the loop
unfoldable pub finish : ℕ → M ℕ
finish exit_status w =
    let w' = close_marks w in
    (do
      when (not (exit_status == 0) && w'.cmd.verbose)
          (fshow_wait_status (percent_s w'.cmd.cmd_name) exit_status)
      pure exit_status)
      w'

-- After a round: it goes on, or the loop is left.
abbrev pub proceed : (Locals → M ℕ) → Round → M ℕ
proceed loop (next l) = loop l
proceed loop (broke exit_status) = finish exit_status

-- `while (1)`: without a further stop, wait() does not return.
unfoldable pub rounds : List Stop → Locals → M ℕ
rounds [] l w = wait w
rounds (stop ∷ stops) l w = (do r ← round stop l; proceed (λ l'. rounds stops l') r) w

-- `regs`, `wfd`, `waddr` and `wlen` have no initial value in the source; `junk` is what they hold.
unfoldable pub ptrace_cmd : List Stop → Locals → M ℕ
ptrace_cmd stops junk = rounds stops (record junk { toggle = 0 })

-- How execvp() ends in the child: the program is replaced, or the call returns.
pub data Exec : Type 0 where
  replaced : Exec
  returned : ℤ → ℤ → Exec

abbrev pub start_cmd : ℤ → World → World
start_cmd pid = on_cmd (λ c. record c { mark_state = 0; child_exited = false; child = pid })

-- `errmark_run_program` in the child of the fork. It returns where the program is replaced.
unfoldable pub run_child : Option ℤ → Exec → M (Unit {0})
unfolding guard_ptrace print_stderr eprint
run_child traced exec w =
    (do
      _ ← guard_ptrace Request.traceme traced
      elim exec [
        | replaced ↦ pure tt
        | returned rc errno ↦
            if eq_ℤ rc minus_one
            then (do
              modify (on_cmd (λ c. record c { rc = rc }))
              err ← gets (λ v. v.libc.strerror errno)
              modify (print_stderr (codes "execvp(): " ++ (err ++ codes "\n")))
              exit_with 2)
            else (do eprint (codes "execvp() failed for reasons unknown!\n"); exit_with 2)
      ])
      (start_cmd (pos 0) w)

-- `errmark_run_program` in the parent: `pid` is what fork() returns, -1 included.
unfoldable pub run_parent : ℤ → List Stop → Locals → M ℕ
run_parent pid stops junk w =
    let w' = start_cmd pid w in
    (do
      when w'.cmd.verbose (eprint (codes "child pid=" ++ (signed_decimal pid ++ codes "\n")))
      rc ← ptrace_cmd stops junk
      modify (on_cmd (λ c. record c { rc = pos rc }))
      modify close_marks
      pure rc)
      w'
