-- ===== src/Run/Apart.antt =====
-- A reader of the terminal can tell stdout and stderr of the traced program apart.
use errmark.Prelude.{ℤ, true, none, List, [], ◌∷◌, ◌++◌, Bytes, ◌≡◌}
use errmark.Stdio.Shown.{shown}
use errmark.World.{World}
use errmark.World.Returns.{Returns, Returns-map}
use errmark.Marks.Transcript.{transcript}
use errmark.Marks.Reader.{tagged, read-twice}
use errmark.Marks.Apart.{told_apart, all_lack, MarkedBy, told_apart-Reads}
use errmark.Writes.{Stop, Locals}
use errmark.Run.{ends, run_parent}
use errmark.Run.PassOn.{Allocates}
use errmark.Run.Script.{Event, stops_of, AreEvents, pieces}
use errmark.Run.Leaves.{IsQuiet, Leaves, last_end}
use errmark.Run.Terminal.{run_parent-transcript}

-- Who knows the two marks of stderr, of which neither begins with the other, and reads what such a
-- run shows, has the bytes of the program's writes to 1 and 2, in order, each with its descriptor,
-- where stdout has no marks and the program does not write the first byte of a mark. No messages are
-- asked for, malloc gives blocks of the size asked for, the writes are readable, and the run ends
-- with a status that is no stop by SIGTRAP or SIGCHLD.
pub run_parent-told_apart :
    (s e : Bytes) (w : World)
    → IsQuiet w
    → Allocates w.libc
    → MarkedBy s e w.marks
    → (pid : ℤ) (es : List Event) → AreEvents es
    → all_lack s e (pieces es) ≡ true
    → (last : Stop) → ends last.status ≡ true
    → (junk : Locals)
    → Returns (run_parent pid (stops_of es ++ last ∷ []) junk w) (λ rc w'.
      (rest : Bytes) × (shown w'.io ≡ shown w.io ++ rest)
      × (told_apart s e none rest ≡ tagged (pieces es)))
run_parent-told_apart s e w q m h pid es ev l last ended junk =
    let more = last_end w es ++ last_end w es in
    Returns-map (λ rc w'. (rc ≡ last.status) × Leaves w es more w') _
      (run_parent pid (stops_of es ++ last ∷ []) junk w)
      (run_parent-transcript w q m pid es ev last ended junk)
      λ rc w' (_, left). (
        transcript w.marks (pieces es) ++ more,
        left.shown_is,
        read-twice (told_apart-Reads s e h) (pieces es) l,
      )
