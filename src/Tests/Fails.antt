-- ===== src/Tests/Fails.antt =====
-- A run whose last GETREGS fails, and a write of which only a part can be read.
use errmark.Prelude.{some, [], ◌∷◌, ◌++◌, Bytes, codes, pos, replicate, ◌≡◌, refl}
use errmark.Stdio.Shown.{texts, shown}
use errmark.World.{World}
use errmark.World.Returns.{Returns}
use errmark.Marks.Transcript.{fd2, transcript}
use errmark.Guard.Ending.{failure}
use errmark.Pmem.{pmem_copy}
use errmark.Writes.{copy_to_both}
use errmark.Run.{run_parent}
use errmark.Run.Script.{stops_of, pieces}
use errmark.Run.Leaves.{IsQuiet}
use errmark.Run.Fails.{Aborts, failing, run_parent-Aborts}
use errmark.Run.Unread.{Mixed, copy_to_both-Mixed}
use errmark.Tests.Samples.{world, libc-Allocates, script, script-AreEvents, junk, ending}
use errmark.Tests.Pmem.{page_peek}

-- Both end marks are there.
abbrev marked_world : World
marked_world = record world { marks = record (world.marks) { end1 = some (codes "]") } }

marked-IsQuiet : IsQuiet marked_world
marked-IsQuiet = record { no_debug = refl; no_cmd_debug = refl; no_verbose = refl }

-- EIO at a stop by SIGTRAP
run_parent-Aborts_example :
    Aborts
      (run_parent
        (pos 42)
        (stops_of script ++ failing (pos 5) (ending 0x057f) ∷ [])
        junk
        marked_world)
      (λ w.
        texts w.io.sent
        ≡ (shown marked_world.io ++ transcript marked_world.marks (pieces script))
          ++ (failure (pos 5) marked_world.libc).text)
run_parent-Aborts_example =
    run_parent-Aborts marked_world marked-IsQuiet libc-Allocates (pos 42) script script-AreEvents
      fd2 (codes "]") (codes ">") refl refl refl (pos 5) (ending 0x057f) refl (λ h. cc) (λ h. cc)
      junk

-- The page ends behind 16 of the 30 bytes.
copy_to_both-Mixed_example : Returns (copy_to_both page_peek 8176 30 world) (λ _ w.
    (held : Bytes) × Mixed 30 (pmem_copy page_peek 8176 30).out (replicate 30 0) held
    × (shown w.io ≡ shown world.io ++ held)
    × (w.io.copied ≡ world.io.copied ++ held))
copy_to_both-Mixed_example = copy_to_both-Mixed page_peek 8176 30 (replicate 30 0) world refl refl
