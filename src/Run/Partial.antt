-- ===== src/Run/Partial.antt =====
-- A run of a program whose writes can be read in part, or not at all.
use errmark.Prelude.{◌<◌, Option, none, some, true, List, [], ◌∷◌, ◌++◌, ℤ, Bytes, ◌≡◌, sym, subst}
use errmark.World.{World}
use errmark.World.Returns.{Returns}
use errmark.Marks.{size_max}
use errmark.Marks.Transcript.{Fd}
use errmark.Writes.{Stop, Locals, as_int, pass_on}
use errmark.Run.{ends, run_parent}
use errmark.Run.Shows.{Shows, fd_number}
use errmark.Run.PassOn.{Allocates, copied_part, passed_of, pass_on-passed}
use errmark.Run.Script.{Write, Event, stops_of, AreEventsOf, AreEventsOf-map, fd_of, pieces_by}
use errmark.Run.Weave.{Passes}
use errmark.Run.Leaves.{IsQuiet, setup_of, LeavesPieces, end_after}
use errmark.Run.Terminal.{run_parent-Passes}

-- The buffer is not at NULL, and its length is not (size_t)(-1).
pub record IsAddressed (wr : Write) : Type 0 where
  pub not_null : 0 < wr.entry.reg_arg2
  pub small : wr.entry.reg_arg3 < size_max

abbrev shown_at : World → Write → Option Fd → Bytes
shown_at w wr none = []
shown_at w wr (some fd) =
    passed_of w.libc w.cmd.copy_fh wr.peek fd wr.entry.reg_arg2 wr.entry.reg_arg3

-- What is shown of a write: what `pmem_copy` stores of it; and where it goes to the copy, too, the
-- rest of the block of malloc behind that.
abbrev pub shown_of : World → Write → Bytes
shown_of w wr = shown_at w wr (fd_of (as_int wr.entry.reg_arg1))

IsAddressed-Passes :
    (w : World)
    → Allocates w.libc
    → (wr : Write) → IsAddressed wr
    → Passes (setup_of w) (shown_of w) wr
IsAddressed-Passes w m wr r = record {
  not_null = r.not_null;
  small = r.small;
  passed = λ fd v u e h.
      subst
        (λ o. Returns (pass_on wr.peek (fd_number fd) wr.entry.reg_arg2 wr.entry.reg_arg3 u) (λ _.
          Shows (setup_of w) (record v {
            text = v.text ++ shown_at w wr o;
            copy = v.copy ++ copied_part w.cmd.copy_fh fd (shown_at w wr o);
          })))
        (sym e) (pass_on-passed m wr.peek wr.entry.reg_arg2 wr.entry.reg_arg3 fd h);
}

-- A run of a program whose writes can be read in part or not at all, and which ends with a status
-- that is no stop by SIGTRAP or SIGCHLD, returns that status; what is shown is the transcript of
-- what `pmem_copy` stores of each write, filled up from the block of malloc for a write to stderr
-- that is copied, and then the end mark of the last run twice more; and the copy has what is shown
-- of the writes to stderr. The buffers are not at NULL, and none has the length (size_t)(-1); no
-- messages are asked for, and malloc gives blocks of the size asked for.
pub run_parent-partial :
    (w : World)
    → IsQuiet w
    → Allocates w.libc
    → (pid : ℤ) (es : List Event) → AreEventsOf IsAddressed es
    → (last : Stop) → ends last.status ≡ true
    → (junk : Locals)
    → let ps = pieces_by (shown_of w) es in
      Returns
        (run_parent pid (stops_of es ++ last ∷ []) junk w)
        (λ rc w'. (rc ≡ last.status) × LeavesPieces w ps (end_after w ps ++ end_after w ps) w')
run_parent-partial w q m pid es ev last e junk =
    run_parent-Passes (shown_of w) w q pid es
      (AreEventsOf-map IsAddressed (Passes (setup_of w) (shown_of w)) es
        (λ wr r. IsAddressed-Passes w m wr r) ev)
      last e junk
