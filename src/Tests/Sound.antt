-- ===== src/Tests/Sound.antt =====
-- The state behind one round of the loop, at the entry of a write to stderr.
use errmark.Prelude.{◌≡◌, refl, pos}
use errmark.World.{World, Outcome, ret, exit, abort, undefined, wait}
use errmark.Writes.{
  Locals, Stop, write_stop, write_enter, write_marked, open_marks, pass_on, copy_to_both,
  copy_to_stdout, debug_write, debug_say,
}
use errmark.Guard.{guard_ptrace, after_ptrace, trace}
use errmark.Marks.{
  before_write, needs_switch, mark_open, switch_to_fd, switch_from_fd, write_start_stdout,
  write_start_stderr, write_end_stdout, write_end_stderr, write_mark,
}
use errmark.Cscript.Errors.{guard_malloc, allocated}
use errmark.Run.{Round, next, broke, round, examine, resume, start_cmd}
use errmark.Run.Script.{stop_with}
use errmark.Run.Sound.{IsSound}
use errmark.Run.Sound.Reach.{Reach, start, go_on, Reach-IsSound}
use errmark.Run.Sound.Stops.{IsFlag}
use errmark.Tests.Samples.{world, junk, write_regs, peek}

abbrev stop : Stop
stop = stop_with (write_regs 2 4099 9) peek

abbrev begun : World
begun = start_cmd (pos 42) world

abbrev one_round : Outcome Round
one_round = round stop (record junk { toggle = 0 }) begun

abbrev world_of : Outcome Round → World
world_of (ret r w) = w
world_of (exit code w) = w
world_of (abort w) = w
world_of (undefined w) = w
world_of (wait w) = w

abbrev locals_of : Outcome Round → Locals
locals_of (ret (next l) w) = l
locals_of (ret (broke status) w) = junk
locals_of (exit code w) = junk
locals_of (abort w) = junk
locals_of (undefined w) = junk
locals_of (wait w) = junk

reached : Reach begun junk (world_of one_round) (locals_of one_round)
unfolding round examine resume write_stop write_enter write_marked pass_on copy_to_both
    copy_to_stdout open_marks debug_write debug_say guard_ptrace after_ptrace trace before_write
    needs_switch mark_open switch_to_fd switch_from_fd write_start_stdout write_start_stderr
    write_end_stdout write_end_stderr write_mark guard_malloc allocated
reached = go_on {w' = world_of one_round} {l' = locals_of one_round} stop start refl

marks_opened : (world_of one_round).cmd.mark_state ≡ 1
unfolding round examine resume write_stop write_enter write_marked pass_on copy_to_both
    copy_to_stdout open_marks debug_write debug_say guard_ptrace after_ptrace trace before_write
    needs_switch mark_open switch_to_fd switch_from_fd write_start_stdout write_start_stderr
    write_end_stdout write_end_stderr write_mark guard_malloc allocated
marks_opened = refl

Reach-IsSound_example : IsFlag (locals_of one_round) × IsSound begun (world_of one_round)
Reach-IsSound_example = Reach-IsSound world (pos 42) reached
