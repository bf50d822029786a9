-- ===== src/Tests/Program.antt =====
-- A program that makes the system calls of a list, and adds up their results.
use errmark.Prelude.{ℕ, ◌+◌, ◌≡◌, refl, true, Option, none, some, List, [], ◌∷◌, ◌++◌, pos, arith}
use errmark.World.{Regs, Request}
use errmark.World.Returns.{Returns}
use errmark.Marks.Transcript.{Piece, fd2}
use errmark.Run.{run_parent}
use errmark.Run.Script.{Write, Event, wrote, called, stops_of, AreEvents, pieces}
use errmark.Run.Leaves.{Leaves, last_end}
use errmark.Run.Events.{asks}
use errmark.Run.Program.{Program, Untraced, Follows, at_last, at_write, at_call}
use errmark.Run.Terminal.{gone}
use errmark.Run.Launch.{vanished}
use errmark.Run.Untraced.{AreEmpty, run_parent-Untraced}
use errmark.Tests.Samples.{
  quiet, world, libc-Allocates, write_of, write_of-IsReadable, no_call, junk, ending,
}

abbrev first : List Regs → Option Regs
first [] = none
first (r ∷ rs) = some r

abbrev rest : List Regs → List Regs
rest [] = []
rest (r ∷ rs) = rs

abbrev adder : Program
adder = record {
  State = List Regs × ℕ;
  Calls = λ s regs. first s.0 ≡ some regs;
  resume = λ s regs. (rest s.0, s.1 + regs.reg_retn);
}

-- The write as the kernel leaves it when its length is 0.
abbrev nothing_written : Write
nothing_written = write_of 2 4099 9

-- exit_group(0)
abbrev exit_call : Regs
exit_call = record no_call { reg_syscall = 231; reg_arg1 = 0 }

abbrev calls : List Regs
calls = nothing_written.entry ∷ no_call ∷ exit_call ∷ []

abbrev events : List Event
events = wrote nothing_written ∷ called no_call ∷ called no_call ∷ called exit_call ∷ []

events-AreEvents : AreEvents events
events-AreEvents = (
  (refl, refl, λ _. write_of-IsReadable 2 4099 9 (omega arith) (omega arith)),
  (refl, (refl, (refl, tt))),
)

abbrev empty_piece : Piece
empty_piece = record { fd = fd2; text = [] }

runs : Follows adder true (calls, 0) events (empty_piece ∷ []) (exit_call ∷ [], 9)
runs =
    at_write nothing_written refl (record { result_only = refl; within = omega arith })
      (at_call no_call no_call refl (at_last exit_call refl))

-- The program exits with 0.
run_parent-Untraced_example :
    Untraced adder (calls, 0) events (pieces events) (exit_call ∷ [], 9)
    × AreEmpty (empty_piece ∷ [])
    × Returns
        (run_parent
          (pos 42)
          (stops_of (called no_call ∷ events) ++ gone (ending 0) ∷ [])
          junk
          world)
        (λ rc w.
          ((rc ≡ 0) × Leaves world events (last_end world events) w)
          × (w.requests
              ≡ (world.requests ++ asks true (called no_call ∷ events)) ++ Request.getregs ∷ []))
run_parent-Untraced_example =
    run_parent-Untraced adder (λ s entry n k c sys m. refl) world quiet libc-Allocates refl (pos 42)
      no_call refl runs events-AreEvents (vanished (ending 0)) junk
