-- ===== src/Tests/Total.antt =====
-- A whole run with a failing malloc and a tracee that cannot be read, by the general theorem.
use errmark.Prelude.{
  codes, ◌++◌, ◌==◌, if◌then◌else◌, ◌≡◌, refl, arith, none, some, List, [], ◌∷◌, pos,
}
use errmark.Stdio.{Stream}
use errmark.World.{World}
use errmark.Writes.{Stop}
use errmark.Run.{run_parent}
use errmark.Run.Script.{stops_of, Event, wrote, AreEventsOf, pieces_by, stop_with, no_peek}
use errmark.Options.{opt_mark_code, opt_copy_code}
use errmark.Main.{Got, Env}
use errmark.Main.Choices.{Choice, mark, copy, verbose}
use errmark.Marks.Transcript.{fd1}
use errmark.Tests.Main.{env}
use errmark.Cscript.Esym.{decode_esym_r}
use errmark.Cscript.Symbols.{number_of, decode_esym_r-number}
use errmark.Run.Leaves.{LeavesPieces, end_after}
use errmark.Run.Partial.{IsAddressed, shown_of, run_parent-partial}
use errmark.Pmem.{Peek}
use errmark.World.Returns.{Returns}
use errmark.Tests.Samples.{
  write_of, peek, quiet, libc-Allocates, world, libc, write_regs, junk, ending,
}

abbrev starved : World
starved = record world {
  errprint_fh = some Stream.stderr;
  libc = record libc { malloc = λ n. none };
}

-- A write that cannot be read, at whose exit SETREGS fails, and then the end.
abbrev bad_stops : List Stop
bad_stops =
    stop_with (write_regs 1 4096 8) no_peek
    ∷ record (stop_with (write_regs 1 4096 8) no_peek) { setregs_errno = some (pos 5) }
    ∷ ending 0x0300
    ∷ []

-- errmark --mark '1:<:>' --copy log --verbose ls, where the copy can be opened.
abbrev choices : List Choice
choices = mark fd1 (codes "<") (codes ">") ∷ copy (codes "log") ∷ verbose ∷ []

abbrev gots : List Got
gots =
    record { optc = opt_mark_code; optarg = codes "1:<:>"; optopt = 0; word = codes "--mark" }
    ∷ record { optc = opt_copy_code; optarg = codes "log"; optopt = 0; word = codes "--copy" }
    ∷ record { optc = b'v'; optarg = []; optopt = 0; word = codes "--verbose" }
    ∷ []

abbrev bad_env : Env
bad_env = record env { gots = gots; optind = 5; stops = bad_stops }

-- A write of which nothing can be read, and one of which the first word can.
abbrev partial_events : List Event
partial_events =
    wrote (record (write_of 1 4096 9) { peek = no_peek })
    ∷ wrote
        (record (write_of 2 4096 12) { peek = λ a. if a == 4096 then peek a else Peek.failed 5 })
    ∷ []

partial-IsAddressed : AreEventsOf IsAddressed partial_events
partial-IsAddressed = (
  (refl, refl, λ _. record { not_null = omega arith; small = omega arith }),
  ((refl, refl, λ _. record { not_null = omega arith; small = omega arith }), tt),
)

run_parent-partial_example :
    let ps = pieces_by (shown_of world) partial_events in
    Returns
      (run_parent (pos 42) (stops_of partial_events ++ ending 256 ∷ []) junk world)
      (λ rc w'. (rc ≡ 256) × LeavesPieces world ps (end_after world ps ++ end_after world ps) w')
run_parent-partial_example =
    run_parent-partial world quiet libc-Allocates (pos 42) partial_events partial-IsAddressed
      (ending 256) refl junk

decode_esym_r-number_example : number_of (decode_esym_r 12 (pos 2147483647)) ≡ 2147483647
decode_esym_r-number_example = decode_esym_r-number 12 2147483647 (omega arith) (omega arith)
