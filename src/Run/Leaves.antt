-- ===== src/Run/Leaves.antt =====
-- The loop over a script, and what the parent has left when it returns.
use errmark.Prelude.{
  ℕ, ◌≡◌, refl, sym, ap, subst, ◌∙◌, Option, none, some, false, List, [], ◌∷◌, ◌++◌, append_assoc,
  ℤ, pos, Bytes,
}
use errmark.Stdio.Shown.{shown}
use errmark.World.{World, Outcome, on_cmd}
use errmark.World.Returns.{Returns, Returns-bind}
use errmark.Marks.Transcript.{Fd, Piece, end_mark, last_fd, woven, transcript, woven-transcript}
use errmark.Run.{rounds, ptrace_cmd, run_parent, start_cmd}
use errmark.Writes.{Stop, Locals}
use errmark.Run.Shows.{Setup, View, CurIs, Shows}
use errmark.Run.Weave.{Passes, after, live}
use errmark.Run.Script.{
  Write, Event, wrote, called, stops_of, AreEventsOf, piece_by, pieces_by, pieces, errors_of,
}
use errmark.Run.Rounds.{live-after, rounds_next, enter_round, leave_round, call_round}
use errmark.Run.Closing.{closed, close-Shows, not_when}
use errmark.Run.Viewed.{run_view_by, run_view-Viewed}

module _ {s : Setup} (text : Write → Bytes) where
  -- The loop goes through the stops of the events, and then on from the view that they lead to.
  pub weave :
      (es : List Event) (tail : List Stop) (l : Locals) (v : View) (w : World)
      (T : Outcome ℕ → Type 0)
      → AreEventsOf (Passes s text) es
      → l.toggle ≡ 0
      → Shows s v w
      → ((l' : Locals) (u : World)
          → l'.toggle ≡ 0
          → Shows s (run_view_by text s es v) u
          → T (rounds tail l' u))
      → T (rounds (stops_of es ++ tail) l w)
  weave [] tail l v w T ev zeroed h go = go l w zeroed h
  weave (wrote wr ∷ es) tail l v w T (ev, evs) zeroed h go =
      let v' = after s (piece_by text (wrote wr)) v in
      rounds_next _ _ l 1 v' w T (enter_round text wr l v w ev zeroed h) λ l' w' one h'.
        rounds_next _ _ l' 0 (live v') w' T (leave_round wr.leave l' v' w' ev.1 one h')
          λ l'' w'' zeroed' h''.
            weave es tail l'' v' w'' T evs zeroed'
              (subst (λ u. Shows s u w'') (live-after s (piece_by text (wrote wr)) v) h'') go
  weave (called regs ∷ es) tail l v w T (ev, evs) zeroed h go =
      rounds_next _ _ l 0 (live v) w T (call_round text regs l v w ev zeroed h)
        λ l' w' zeroed' h'. weave es tail l' (live v) w' T evs zeroed' h' go

-- No debugging output, and no messages.
pub record IsQuiet (w : World) : Type 0 where
  pub no_debug : w.debug ≡ false
  pub no_cmd_debug : w.cmd.debug ≡ false
  pub no_verbose : w.cmd.verbose ≡ false

abbrev pub setup_of : World → Setup
setup_of w = record {
  marks = w.marks;
  libc = w.libc;
  nullify = w.cmd.nullify;
  copying = w.cmd.copy_fh;
}

abbrev pub start_view : World → View
start_view w = record { cur = none; child_exited = false; text = shown w.io; copy = w.io.copied }

pub start-Shows :
    (pid : ℤ) (w : World) → IsQuiet w → Shows (setup_of w) (start_view w) (start_cmd pid w)
start-Shows pid w q = record {
  base = record {
    no_debug = q.no_debug;
    no_cmd_debug = q.no_cmd_debug;
    no_verbose = q.no_verbose;
    nullify_is = refl;
    copying_is = refl;
    libc_is = refl;
    marks_are = (refl, refl, refl, refl);
    exited_is = refl;
    text_is = refl;
    copy_is = refl;
  };
  cur_is = refl;
}

-- What is left of the pieces that are shown: their runs in their marks, and `more`.
pub record LeavesPieces (w : World) (ps : List Piece) (more : Bytes) (w' : World) : Type 0 where
  pub shown_is : shown w'.io ≡ shown w.io ++ (transcript w.marks ps ++ more)
  pub copied_is : w'.io.copied ≡ w.io.copied ++ errors_of w.cmd.copy_fh ps

-- The end mark of the last run.
abbrev pub end_after : World → List Piece → Bytes
end_after w ps = end_mark w.marks (last_fd none ps)

-- The same for the writes of a run.
abbrev pub Leaves : World → List Event → Bytes → World → Type 0
Leaves w es = LeavesPieces w (pieces es)

abbrev pub last_end : World → List Event → Bytes
last_end w es = end_after w (pieces es)

pub closings :
    (text : Write → Bytes) (w w' : World) (es : List Event) (u : View) (more : Bytes)
    → u.text
      ≡ (run_view_by text (setup_of w) es (start_view w)).text
        ++ (end_after w (pieces_by text es) ++ more)
    → u.copy ≡ (run_view_by text (setup_of w) es (start_view w)).copy
    → Shows (setup_of w) u w'
    → LeavesPieces w (pieces_by text es) more w'
closings text w w' es u more p q h =
    let v = run_view-Viewed text (setup_of w) es (start_view w) in
    let ps = pieces_by text es in
    let body = woven w.marks none ps in
    let tail = end_after w ps in
    record {
      shown_is =
          h.base.text_is
          ∙ p
          ∙ ap (λ (t : Bytes). t ++ (tail ++ more)) v.text_is
          ∙ append_assoc (shown w.io) body (tail ++ more)
          ∙ ap (λ (t : Bytes). shown w.io ++ t)
              (sym (append_assoc body tail more)
                ∙ ap (λ (t : Bytes). t ++ more) (woven-transcript w.marks ps));
      copied_is = h.base.copy_is ∙ q ∙ v.copy_is;
    }

set_rc-Shows :
    (s : Setup) (v : View) (w : World) (rc : ℤ)
    → Shows s v w
    → Shows s v (on_cmd (λ c. record c { rc = rc }) w)
set_rc-Shows s v w rc h = record {
  base = record {
    no_debug = h.base.no_debug;
    no_cmd_debug = h.base.no_cmd_debug;
    no_verbose = h.base.no_verbose;
    nullify_is = h.base.nullify_is;
    copying_is = h.base.copying_is;
    libc_is = h.base.libc_is;
    marks_are = h.base.marks_are;
    exited_is = h.base.exited_is;
    text_is = h.base.text_is;
    copy_is = h.base.copy_is;
  };
  cur_is = Cur-rc v.cur h.cur_is;
}
  where
    Cur-rc : (cur : Option Fd) → CurIs cur w → CurIs cur (on_cmd (λ c. record c { rc = rc }) w)
    Cur-rc none p = p
    Cur-rc (some fd) p = p

-- The parent closes the marks once more behind the loop.
pub parent_ends :
    (pid : ℤ) (stops : List Stop) (junk : Locals) (w : World) (k : ℕ) (u : View)
    → IsQuiet w
    → Returns
        (rounds stops (record junk { toggle = 0 }) (start_cmd pid w))
        (λ rc w'. (rc ≡ k) × Shows (setup_of w) u w')
    → Returns
        (run_parent pid stops junk w)
        (λ rc w'. (rc ≡ k) × Shows (setup_of w) (closed (setup_of w) u) w')
unfolding run_parent ptrace_cmd
parent_ends pid stops junk w k u q e =
    Returns-bind (λ _. λ w'. w' ≡ start_cmd pid w) _ _ _
      (not_when (setup_of w) _ _ (λ w'. w' ≡ start_cmd pid w) (start_cmd pid w) q.no_verbose refl)
      λ _ w' same.
        Returns-bind (λ rc. λ w''. (rc ≡ k) × Shows (setup_of w) u w'') _
          (rounds stops (record junk { toggle = 0 }) w') _
          (subst
            (λ x.
              Returns (rounds stops (record junk { toggle = 0 }) x)
                (λ rc w''. (rc ≡ k) × Shows (setup_of w) u w''))
            (sym same) e)
          λ rc w'' (r, h).
            (r, close-Shows (setup_of w) u _ (set_rc-Shows (setup_of w) u w'' (pos rc) h))
