-- ===== src/Tests/Guard.antt =====
-- Guarded requests.
use errmark.Prelude.{◌≡◌, refl, some, [], ◌∷◌, pos, codes}
use errmark.World.{World, Request}
use errmark.Guard.{guard_ptrace}
use errmark.Guard.Chunks.{end_chunks}
use errmark.Guard.Ending.{Guarded, guard_ptrace-Guarded}
use errmark.Tests.Samples.{world}

-- A run of stderr is open, and stdout's buffer holds something.
abbrev in_run : World
in_run = record world {
  marks = record (world.marks) { cur_fd = pos 2 };
  cmd = record (world.cmd) { mark_state = 1 };
  io = record (world.io) { pending = codes "late" };
}

-- EPERM
guard_ptrace-Guarded_example :
    Guarded Request.syscall in_run
      (some (pos 1))
      (guard_ptrace Request.syscall (some (pos 1)) in_run)
guard_ptrace-Guarded_example = guard_ptrace-Guarded Request.syscall in_run (some (pos 1)) (λ h. cc)

in_run_chunks :
    end_chunks in_run
    ≡ record { to = 1; text = codes "late" } ∷ record { to = 2; text = codes ">" } ∷ []
in_run_chunks = refl
