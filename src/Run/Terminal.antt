-- ===== src/Run/Terminal.antt =====
-- What a whole run shows on the terminal, and what it copies.
use errmark.Prelude.{
  ◌&&◌, ◌≡◌, refl, sym, ap, subst, ◌∙◌, Option, none, some, true, List, [], ◌∷◌, ◌++◌, append_assoc,
  ℤ, minus_one, eq_ℤ, Bytes,
}
use errmark.World.{World, Request, pure}
use errmark.World.Returns.{Returns, Returns-bind, Returns-then, Returns-map}
use errmark.Marks.Transcript.{Piece, end_mark}
use errmark.Guard.{guard_ptrace, esrch}
use errmark.Run.{round, examine, proceed, broke, ends, rounds, run_parent}
use errmark.Writes.{Stop, Locals}
use errmark.Run.Shows.{Setup, View, Shows}
use errmark.Run.Weave.{after, Passes, IsReadable-Passes}
use errmark.Run.PassOn.{Allocates}
use errmark.Run.Script.{
  Write, Event, stops_of, AreEvents, AreEventsOf, AreEventsOf-map, IsReadable, data_of, piece_of,
  pieces_by,
}
use errmark.Run.Steps.{ptrace_esrch}
use errmark.Run.Closing.{finish-Shows, closed, rounds_end}
use errmark.Run.Viewed.{run_view, run_view_by, run_view-Viewed}
use errmark.Run.Leaves.{
  weave, IsQuiet, setup_of, start_view, start-Shows, Leaves, LeavesPieces, end_after, last_end,
  closings, parent_ends,
}

thrice : (t : Bytes) {e e' : Bytes} → e ≡ e' → ((t ++ e) ++ e) ++ e ≡ t ++ (e' ++ (e' ++ e'))
thrice t {e} {e'} p = simp append_assoc (ap (λ (x : Bytes). t ++ (x ++ (x ++ x))) p)

twice : (t : Bytes) {e e' : Bytes} → e ≡ e' → (t ++ e) ++ e ≡ t ++ (e' ++ e')
twice t {e} {e'} p = simp append_assoc (ap (λ (x : Bytes). t ++ (x ++ x)) p)

-- Readable writes are passed on whole.
pub Passes-all :
    (w : World)
    → Allocates w.libc
    → (es : List Event) → AreEvents es
    → AreEventsOf (Passes (setup_of w) data_of) es
Passes-all w m es ev =
    AreEventsOf-map IsReadable (Passes (setup_of w) data_of) es (λ wr r. IsReadable-Passes m wr r)
      ev

-- A run in which of each write to a marked descriptor `text` is passed on.
pub run_parent-Passes :
    (text : Write → Bytes) (w : World)
    → IsQuiet w
    → (pid : ℤ) (es : List Event) → AreEventsOf (Passes (setup_of w) text) es
    → (last : Stop) → ends last.status ≡ true
    → (junk : Locals)
    → let ps = pieces_by text es in
      Returns
        (run_parent pid (stops_of es ++ last ∷ []) junk w)
        (λ rc w'. (rc ≡ last.status) × LeavesPieces w ps (end_after w ps ++ end_after w ps) w')
run_parent-Passes text w q pid es ev last e junk =
    let s = setup_of w in
    let v = run_view_by text s es (start_view w) in
    let end = end_after w (pieces_by text es) in
    Returns-map (λ rc w'. (rc ≡ last.status) × Shows s (closed s (closed s (closed s v))) w') _
      (run_parent pid (stops_of es ++ last ∷ []) junk w)
      (parent_ends pid (stops_of es ++ last ∷ []) junk w last.status (closed s (closed s v)) q (
        weave text es (last ∷ []) _ (start_view w) _
          (λ o. Returns o (λ rc w'. (rc ≡ last.status) × Shows s (closed s (closed s v)) w')) ev
          refl (start-Shows pid w q) λ l' u _ h. rounds_end s last l' v u e h))
      λ rc w' (r, h). (
        r,
        closings text w w' es (closed s (closed s (closed s v))) (end ++ end)
            (thrice v.text
              (ap (end_mark w.marks) (run_view-Viewed text s es (start_view w)).cur_is))
            refl h,
      )

-- A run of a program whose writes are readable, and which ends with a status that is no stop by
-- SIGTRAP or SIGCHLD, returns that status; what is shown is the transcript of the writes and then
-- the end mark of the last run twice more; the copy has what was written to stderr. No messages are
-- asked for, and malloc gives blocks of the size asked for.
pub run_parent-transcript :
    (w : World)
    → IsQuiet w
    → Allocates w.libc
    → (pid : ℤ) (es : List Event) → AreEvents es
    → (last : Stop) → ends last.status ≡ true
    → (junk : Locals)
    → Returns
        (run_parent pid (stops_of es ++ last ∷ []) junk w)
        (λ rc w'. (rc ≡ last.status) × Leaves w es (last_end w es ++ last_end w es) w')
run_parent-transcript w q m pid es ev last e junk =
    run_parent-Passes data_of w q pid es (Passes-all w m es ev) last e junk

live_is : (s : Setup) (p : Option Piece) (v : View) → (after s p v).child_exited ≡ true
live_is s none v = refl
live_is s (some p) v = refl

-- The view after an event is of a child that `ptrace` has reached.
reached :
    (s : Setup) (e : Event) (es : List Event) (v : View)
    → (run_view s (e ∷ es) v).child_exited ≡ true
reached s e [] v = live_is s (piece_of e) v
reached s e (e' ∷ es) v = reached s e' es (after s (piece_of e) v)

-- The child is gone: wait() fails or tells of an exit with 0, and GETREGS finds no process.
abbrev pub gone : Stop → Stop
gone stop = record stop { status = 0; getregs_errno = some esrch }

round-gone :
    (s : Setup) (v : View) (w : World) (stop : Stop) (l : Locals)
    → v.child_exited ≡ true
    → Shows s v w
    → Returns (round (gone stop) l w) (λ r w'. (r ≡ broke 0) × Shows s v w')
unfolding round examine
round-gone s v w stop l live h =
    Returns-bind (λ rc. λ w'. (rc ≡ minus_one) × Shows s v w') _
      (guard_ptrace Request.getregs (some esrch) w) _ (ptrace_esrch Request.getregs h)
      λ rc w' (q, h').
        Returns-then (λ r u. (r ≡ broke 0) × Shows s v u) (eq_ℤ rc minus_one && w'.cmd.child_exited)
          (pure (broke 0)) _ w'
          (ap (λ k. eq_ℤ k minus_one && w'.cmd.child_exited) q ∙ h'.base.exited_is ∙ live)
          (refl, h')

rounds-gone :
    (s : Setup) (v : View) (w : World) (stop : Stop) (l : Locals)
    → v.child_exited ≡ true
    → Shows s v w
    → Returns (rounds (gone stop ∷ []) l w) (λ rc w'. (rc ≡ 0) × Shows s (closed s v) w')
unfolding rounds
rounds-gone s v w stop l live h =
    Returns-bind (λ r. λ w'. (r ≡ broke 0) × Shows s v w') _ _ _ (round-gone s v w stop l live h)
      λ r w' (q, h').
        subst
          (λ k.
            Returns (proceed (λ l'. rounds [] l') k w')
              (λ rc w''. (rc ≡ 0) × Shows s (closed s v) w''))
          (sym q) (finish-Shows s 0 v w' h')

-- A run of a program that makes at least one stop, whose writes are readable, and whose end is
-- found by a GETREGS that meets no process, returns 0; what is shown is the transcript of the
-- writes and then the end mark of the last run once more; the copy has what was written to stderr.
-- No messages are asked for, and malloc gives blocks of the size asked for.
pub run_parent-gone :
    (w : World)
    → IsQuiet w
    → Allocates w.libc
    → (pid : ℤ) (e : Event) (es : List Event) → AreEvents (e ∷ es)
    → (last : Stop) (junk : Locals)
    → Returns
        (run_parent pid (stops_of (e ∷ es) ++ gone last ∷ []) junk w)
        (λ rc w'. (rc ≡ 0) × Leaves w (e ∷ es) (last_end w (e ∷ es)) w')
run_parent-gone w q m pid e es ev last junk =
    let s = setup_of w in
    let v = run_view s (e ∷ es) (start_view w) in
    Returns-map (λ rc w'. (rc ≡ 0) × Shows s (closed s (closed s v)) w') _
      (run_parent pid (stops_of (e ∷ es) ++ gone last ∷ []) junk w)
      (parent_ends pid (stops_of (e ∷ es) ++ gone last ∷ []) junk w 0 (closed s v) q (
        weave data_of (e ∷ es) (gone last ∷ []) _ (start_view w) _
          (λ o. Returns o (λ rc w'. (rc ≡ 0) × Shows s (closed s v) w'))
          (Passes-all w m (e ∷ es) ev) refl (start-Shows pid w q)
          λ l' u _ h. rounds-gone s v u last l' (reached s e es (start_view w)) h))
      λ rc w' (r, h). (
        r,
        closings data_of w w' (e ∷ es) (closed s (closed s v)) (last_end w (e ∷ es))
            (twice v.text
              (ap (end_mark w.marks) (run_view-Viewed data_of s (e ∷ es) (start_view w)).cur_is))
            refl h,
      )
