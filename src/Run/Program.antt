-- ===== src/Run/Program.antt =====
-- A program as a machine that makes system calls, run on its own and run under the requests of
-- errmark, where no signal comes to it. Of ptrace(2) it is used what its manual says: the registers that were set last before a
-- stop is resumed are the ones in force, at an entry for the system call, at an exit for the
-- program.
use errmark.Prelude.{ℕ, ◌≤◌, ◌≡◌, Bool, true, false, List, [], ◌∷◌}
use errmark.World.{Regs, Request}
use errmark.Marks.Transcript.{Piece}
use errmark.Pmem.Memory.{bytes_at}
use errmark.Writes.{marked_fd, as_int}
use errmark.Run.Script.{Write, Event, wrote, called, fd_of, data_of, piece_at, put}
use errmark.Run.Events.{asks_of}

-- The states of the program, the registers with which it makes a system call, and the state in
-- which it goes on with the registers that the call leaves.
pub record Program : Type 1 where
  pub State : Type 0
  pub Calls : State → Regs → Type 0
  pub resume : State → Regs → State

-- A system call leaves all registers but the one for its result.
abbrev pub with_result : Regs → ℕ → Regs
with_result regs n = record regs { reg_retn = n }

-- A write of the registers in force: at most the length asked for is written.
pub record Performs (in_force leave : Regs) : Type 0 where
  pub result_only : leave ≡ with_result in_force leave.reg_retn
  pub within : leave.reg_retn ≤ in_force.reg_arg3

-- The registers in force when the stop is resumed, where it was reached with `regs`.
abbrev pub in_force : List Request → Regs → Regs
in_force [] regs = regs
in_force (Request.traceme ∷ q) regs = in_force q regs
in_force (Request.getregs ∷ q) regs = in_force q regs
in_force (Request.setregs new ∷ q) regs = in_force q new
in_force (Request.syscall ∷ q) regs = regs

-- The requests behind the first that resumes the program.
abbrev pub resumed : List Request → List Request
resumed [] = []
resumed (Request.traceme ∷ q) = resumed q
resumed (Request.getregs ∷ q) = resumed q
resumed (Request.setregs new ∷ q) = resumed q
resumed (Request.syscall ∷ q) = q

abbrev pub is_marked : Write → Bool
is_marked wr = marked_fd (as_int wr.entry.reg_arg1)

-- What the kernel itself writes to a marked descriptor.
abbrev pub kernel_piece : Write → Regs → Regs → List Piece → List Piece
kernel_piece wr sent leave ps =
    put (piece_at (fd_of (as_int sent.reg_arg1)) (bytes_at wr.mem sent.reg_arg2 leave.reg_retn)) ps

module _ (p : Program) where
  -- The program on its own, where each write to a marked descriptor is performed whole. The events
  -- are its system calls, the list of pieces is what it writes to the marked descriptors.
  pub data Untraced : p.State → List Event → List Piece → p.State → Type 0 where
    ended : (s : p.State) → Untraced s [] [] s
    wrote_whole :
        {s t : p.State} {es : List Event} {ps : List Piece} (wr : Write)
        → p.Calls s wr.entry
        → is_marked wr ≡ true
        → Untraced (p.resume s (with_result wr.entry wr.entry.reg_arg3)) es ps t
        → Untraced s
            (wrote wr ∷ es)
            (put (piece_at (fd_of (as_int wr.entry.reg_arg1)) (data_of wr)) ps)
            t
    wrote_other :
        {s t : p.State} {es : List Event} {ps : List Piece} (wr : Write)
        → p.Calls s wr.entry
        → is_marked wr ≡ false
        → Performs wr.entry wr.leave
        → Untraced (p.resume s wr.leave) es ps t
        → Untraced s (wrote wr ∷ es) ps t
    -- a call that does not return, such as exit_group(2)
    ends_by : {s : p.State} (entry : Regs) → p.Calls s entry → Untraced s (called entry ∷ []) [] s
    made_call :
        {s t : p.State} {es : List Event} {ps : List Piece} (entry leave : Regs)
        → p.Calls s entry
        → Untraced (p.resume s leave) es ps t
        → Untraced s (called entry ∷ called leave ∷ es) ps t

  -- The program under the requests of errmark. The pieces are what the kernel itself writes to the
  -- marked descriptors for it.
  pub data Follows (b : Bool) : p.State → List Event → List Piece → p.State → Type 0 where
    at_end : (s : p.State) → Follows b s [] [] s
    at_write :
        {s t : p.State} {es : List Event} {ps : List Piece} (wr : Write)
        → p.Calls s wr.entry
        → Performs (in_force (asks_of b (wrote wr)) wr.entry) wr.leave
        → Follows b (p.resume s (in_force (resumed (asks_of b (wrote wr))) wr.leave)) es ps t
        → Follows b s
            (wrote wr ∷ es)
            (kernel_piece wr (in_force (asks_of b (wrote wr)) wr.entry) wr.leave ps)
            t
    at_last : {s : p.State} (entry : Regs) → p.Calls s entry → Follows b s (called entry ∷ []) [] s
    at_call :
        {s t : p.State} {es : List Event} {ps : List Piece} (entry leave : Regs)
        → p.Calls s entry
        → Follows b (p.resume s (in_force (asks_of b (called leave)) leave)) es ps t
        → Follows b s (called entry ∷ called leave ∷ es) ps t
