-- ===== src/Tests/Run.antt =====
-- Whole runs.
use errmark.Prelude.{◌≡◌, refl, ◌++◌, [], ◌∷◌, codes, pos, minus_one}
use errmark.World.Returns.{Returns}
use errmark.Marks.Transcript.{transcript}
use errmark.Run.{run_parent}
use errmark.Run.Script.{stops_of, pieces}
use errmark.Run.Leaves.{Leaves, last_end}
use errmark.Run.Terminal.{gone, run_parent-transcript, run_parent-gone}
use errmark.Writes.{at_entry}
use errmark.Run.Events.{asks}
use errmark.Run.Tracee.{run_parent-asks}
use errmark.Run.Lost.{Waits, all_lost, run_parent-Waits}
use errmark.Tests.Samples.{
  quiet, world, libc-Allocates, first_event, later_events, script, no_call, script-AreEvents, junk,
  ending,
}

transcript-script : transcript world.marks (pieces script) ≡ codes "67<901234567234>"
unfolding transcript
transcript-script = refl

run_parent-transcript_example :
    Returns
      (run_parent (pos 42) (stops_of script ++ ending 256 ∷ []) junk world)
      (λ rc w. (rc ≡ 256) × Leaves world script (last_end world script ++ last_end world script) w)
run_parent-transcript_example =
    run_parent-transcript world quiet libc-Allocates (pos 42) script script-AreEvents (ending 256)
      refl junk

run_parent-gone_example :
    Returns
      (run_parent (pos 42) (stops_of script ++ gone (ending 0) ∷ []) junk world)
      (λ rc w. (rc ≡ 0) × Leaves world script (last_end world script) w)
run_parent-gone_example =
    run_parent-gone world quiet libc-Allocates (pos 42) first_event later_events script-AreEvents
      (ending 0) junk

-- fork() fails, and the loop goes on.
run_parent-Waits_example : Waits (
    run_parent minus_one
      (all_lost (ending 0 ∷ ending 0 ∷ ending 0 ∷ []))
      (at_entry no_call minus_one)
      world)
run_parent-Waits_example =
    run_parent-Waits world refl minus_one (ending 0 ∷ ending 0 ∷ ending 0 ∷ [])
      (at_entry no_call minus_one) refl

-- The sample world nullifies: the write to 1 gets no bytes, and returns that it wrote 2.
run_parent-asks_example :
    Returns
      (run_parent (pos 42) (stops_of script ++ ending 256 ∷ []) junk world)
      (λ rc w. w.requests ≡ world.requests ++ asks world.cmd.nullify script)
run_parent-asks_example =
    run_parent-asks world quiet libc-Allocates (pos 42) script script-AreEvents (ending 256) refl
      junk
