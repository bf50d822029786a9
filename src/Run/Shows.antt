-- ===== src/Run/Shows.antt =====
-- What holds of the world between the steps of a run with no debugging output, and what each step
-- adds to the text that a terminal shows and to the copy of stderr.
use errmark.Prelude.{
  ℕ, ◌≡◌, ap, subst, ◌∙◌, Bool, Option, none, some, false, ◌++◌, append-nil, ℤ, pos, Bytes, arith,
}
use errmark.Stdio.{Io, write, fflush_stdout}
use errmark.Stdio.Shown.{shown, shown-write}
use errmark.World.{World, Marks, Libc, on_io}
use errmark.Marks.{write_mark, switch_from_fd, switch_to_fd, set_cur_fd}
use errmark.Marks.Transcript.{Fd, fd1, fd2, mark_text, start_of, end_of}

-- What a run does not change.
pub record Setup : Type 0 where
  pub marks : Marks
  pub libc : Libc
  pub nullify : Bool
  pub copying : Bool

pub record View : Type 0 where
  pub cur : Option Fd
  pub child_exited : Bool
  pub text : Bytes
  pub copy : Bytes

abbrev pub fd_number : Fd → ℤ
fd_number fd1 = pos 1
fd_number fd2 = pos 2

-- `mark_state` and `cur_fd` where the last marked write was of `cur`.
abbrev pub CurIs : Option Fd → World → Type 0
CurIs none w = w.cmd.mark_state ≡ 0
CurIs (some fd) w = (w.cmd.mark_state ≡ 1) × (w.marks.cur_fd ≡ fd_number fd)

abbrev pub SameMarks : Marks → Marks → Type 0
SameMarks m n =
    (n.start1 ≡ m.start1) × (n.end1 ≡ m.end1) × (n.start2 ≡ m.start2) × (n.end2 ≡ m.end2)

-- All but the state of the marks: the text shown so far, and the copy.
pub record Base (s : Setup) (exited : Bool) (text copy : Bytes) (w : World) : Type 0 where
  pub no_debug : w.debug ≡ false
  pub no_cmd_debug : w.cmd.debug ≡ false
  pub no_verbose : w.cmd.verbose ≡ false
  pub nullify_is : w.cmd.nullify ≡ s.nullify
  pub copying_is : w.cmd.copy_fh ≡ s.copying
  pub libc_is : w.libc ≡ s.libc
  pub marks_are : SameMarks s.marks w.marks
  pub exited_is : w.cmd.child_exited ≡ exited
  pub text_is : shown w.io ≡ text
  pub copy_is : w.io.copied ≡ copy

pub record Shows (s : Setup) (v : View) (w : World) : Type 0 where
  pub base : Base s v.child_exited v.text v.copy w
  pub cur_is : CurIs v.cur w

-- A change of the streams only.
pub Base-io :
    {s : Setup} {e : Bool} {t c : Bytes} {w : World} (f : Io → Io) (t' c' : Bytes)
    → Base s e t c w
    → shown (f w.io) ≡ t'
    → (f w.io).copied ≡ c'
    → Base s e t' c' (on_io f w)
Base-io f t' c' h p q = record {
  no_debug = h.no_debug;
  no_cmd_debug = h.no_cmd_debug;
  no_verbose = h.no_verbose;
  nullify_is = h.nullify_is;
  copying_is = h.copying_is;
  libc_is = h.libc_is;
  marks_are = h.marks_are;
  exited_is = h.exited_is;
  text_is = p;
  copy_is = q;
}

module _ (s : Setup) (e : Bool) (t c : Bytes) where
  -- a mark of either descriptor, written in the course of a switch
  pub mark-Base :
      (fd : ℕ) (mark : Option Bytes) (w : World)
      → Base s e t c w
      → Base s e (t ++ mark_text mark) c (write_mark fd mark w)
  unfolding write_mark
  mark-Base fd none w h = rw append-nil h
  mark-Base fd (some mark) w h =
      Base-io (λ io. write fd mark (fflush_stdout io)) (t ++ mark) c h
        (shown-write fd mark w.io ∙ ap (λ (u : Bytes). u ++ mark) h.text_is)
        (unfold write fflush_stdout in h.copy_is)

  pub same_mark :
      (fd : ℕ) (mark : Option Bytes) (w : World) {mark' : Option Bytes}
      → mark ≡ mark'
      → Base s e t c w
      → Base s e (t ++ mark_text mark') c (write_mark fd mark w)
  same_mark fd mark w p h =
      subst (λ m. Base s e (t ++ mark_text m) c (write_mark fd mark w)) p (mark-Base fd mark w h)

  pub switch_to-Base :
      (fd : Fd) (w : World)
      → Base s e t c w
      → Base s e (t ++ start_of s.marks fd) c (switch_to_fd (fd_number fd) w)
  unfolding switch_to_fd
  switch_to-Base fd1 w h = same_mark 1 w.marks.start1 w h.marks_are.0 h
  switch_to-Base fd2 w h = same_mark 2 w.marks.start2 w h.marks_are.2 h

  pub switch_from-Base :
      (fd : Fd) (w : World)
      → Base s e t c w
      → Base s e (t ++ end_of s.marks fd) c (switch_from_fd (fd_number fd) w)
  unfolding switch_from_fd
  switch_from-Base fd1 w h = same_mark 1 w.marks.end1 w h.marks_are.1 h
  switch_from-Base fd2 w h = same_mark 2 w.marks.end2 w h.marks_are.3 h

  pub set_cur-Shows :
      (fd : Fd) (w : World)
      → Base s e t c w
      → w.cmd.mark_state ≡ 1
      → Shows s
          (record { cur = some fd; child_exited = e; text = t; copy = c })
          (set_cur_fd (fd_number fd) w)
  set_cur-Shows fd w h one = ground arith
