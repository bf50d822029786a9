-- ===== src/Tests/Child.antt =====
-- The child of the fork, where the program is missing; and the ways in which a program may end.
use errmark.Prelude.{◌/◌, ◌≡◌, refl, not, some, none, pos, minus_one, arith}
use errmark.Stdio.{Stream}
use errmark.World.{World}
use errmark.Cscript.Ended.{stopped, status_of}
use errmark.Run.{returned, run_child, ends}
use errmark.Run.Child.{Child, run_child-Child}
use errmark.Run.Ends.{goes_on, exit_of, ends-goes_on}
use errmark.Tests.Samples.{world}

abbrev with_stderr : World
with_stderr = record world { errprint_fh = some Stream.stderr }

-- ENOENT
run_child-Child_example :
    Child with_stderr none
      (returned minus_one (pos 2))
      (run_child none (returned minus_one (pos 2)) with_stderr)
run_child-Child_example =
    run_child-Child none (returned minus_one (pos 2)) Stream.stderr with_stderr (λ h. cc) refl

-- SIGSTOP
ends-goes_on_example :
    (ends (status_of (stopped 19)) ≡ not (goes_on (stopped 19)))
    × (status_of (stopped 19) / 256 ≡ exit_of (stopped 19))
ends-goes_on_example = ends-goes_on (stopped 19) (omega arith)
