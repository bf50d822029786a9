-- ===== src/Run/Sound.antt =====
-- The states that the loop over the stops can reach, whatever the kernel answers.
pub mod Stops
pub mod Reach
use errmark.Prelude.{
  ℕ, ℤ, pos, minus_one, eq_ℤ, eq_ℤ→eq, Option, Bool, Bool-cases, true, false, not, ◌&&◌, ◌||◌, ◌==◌,
  Bytes, ◌≡◌, ◌⊎◌, inl, inr, refl, sym, ap, subst, ◌∙◌, if◌then◌else◌, arith, codes,
}
use errmark.World.{World, Marks, Cmd, Request, Outcome, M, ret, abort, bind, pure, on_cmd}
use errmark.World.Keeps.{Allowed, Meets, Meets-either}
use errmark.Stdio.{Io}
use errmark.Marks.{before_write, needs_switch, set_cur_fd, switch_from_fd, switch_to_fd, mark_open}
use errmark.Guard.{guard_ptrace, after_ptrace, trace, ask, err_of, rc_of, esrch}
use errmark.Writes.{
  Stop, Locals, open_marks, write_marked, write_enter, write_leave, write_stop, marked_fd, at_entry,
  as_int, pass_on, sys_write,
}
use errmark.Run.{Round, next, broke, round, examine, resume, end_round, ends}
use errmark.Run.Shows.{SameMarks}
use errmark.Run.Streams.{
  OnlyIo, OnlyIo-trans, OnlyIo-if, OnlyIo-refl, trace-OnlyIo, after_write-OnlyIo,
  debug_write-OnlyIo, debug_say-OnlyIo, switch_from-OnlyIo, switch_to-OnlyIo,
}

-- The values that `cur_fd` may have once the marks are open.
abbrev pub IsCur : ℤ → Type 0
IsCur fd = (fd ≡ minus_one) ⊎ (fd ≡ pos 1) ⊎ (fd ≡ pos 2)

-- A request that fails with any other errno than ESRCH (and than 0) aborts the program.
abbrev pub harms : Option ℤ → Bool
harms answer = not (eq_ℤ (err_of answer) (pos 0)) && not (eq_ℤ (err_of answer) esrch)

-- The marks are open or not; and from `w0` to `w`, nothing has changed but `cur_fd`, the fields
-- `mark_state` and `child_exited` of the command, the streams and the requests made.
pub record IsSound (w0 w : World) : Type 0 where
  pub state_is : (w.cmd.mark_state ≡ 0) ⊎ ((w.cmd.mark_state ≡ 1) × IsCur w.marks.cur_fd)
  pub same : w ≡ record w0 {
    marks = record (w0.marks) { cur_fd = w.marks.cur_fd };
    cmd = record (w0.cmd) { mark_state = w.cmd.mark_state; child_exited = w.cmd.child_exited };
    io = w.io;
    requests = w.requests;
  }

marked-IsCur : (fd cur : ℤ) (buf len : ℕ) → needs_switch fd buf len cur ≡ true → IsCur fd
unfolding needs_switch
marked-IsCur fd cur buf len h = one_or_two (eq_ℤ fd (pos 1)) (eq_ℤ fd (pos 2)) refl refl
  where
    one_or_two : (a b : Bool) → eq_ℤ fd (pos 1) ≡ a → eq_ℤ fd (pos 2) ≡ b → IsCur fd
    one_or_two true b e d = inr (inl (eq_ℤ→eq fd (pos 1) e))
    one_or_two false true e d = inr (inr (eq_ℤ→eq fd (pos 2) d))
    one_or_two false false e d = absurd (ground arith)

module _ {w0 : World} where
  IsSound-io : {w : World} (io : Io) → IsSound w0 w → IsSound w0 (record w { io = io })
  IsSound-io io h = record {
    state_is = h.state_is;
    same = ap (λ (x : World). record x { io = io }) h.same;
  }

  pub OnlyIo-IsSound : {w w' : World} → OnlyIo w w' → IsSound w0 w → IsSound w0 w'
  OnlyIo-IsSound {w} {w'} s h = subst (IsSound w0) (sym s.same) (IsSound-io w'.io h)

  ask-IsSound : (request : Request) {w : World} → IsSound w0 w → IsSound w0 (ask request w)
  ask-IsSound request h = record {
    state_is = h.state_is;
    same = ap (λ (x : World). ask request x) h.same;
  }

  set_exited-IsSound :
      {w : World} → IsSound w0 w → IsSound w0 (on_cmd (λ c. record c { child_exited = true }) w)
  set_exited-IsSound h = record {
    state_is = h.state_is;
    same = ap (λ (x : World). on_cmd (λ c. record c { child_exited = true }) x) h.same;
  }

  opened-IsSound :
      {w : World}
      → IsSound w0 w
      → IsSound w0 (on_cmd (λ c. record c { mark_state = 1 }) (mark_open w))
  unfolding mark_open
  opened-IsSound h = record {
    state_is = inr (refl, inl refl);
    same =
        ap (λ (x : World). on_cmd (λ c. record c { mark_state = 1 }) (set_cur_fd minus_one x))
          h.same;
  }

  -- a current descriptor, once the marks are open
  set_cur-IsSound : (fd : ℤ) {w : World} → IsCur fd → IsSound w0 w → IsSound w0 (set_cur_fd fd w)
  set_cur-IsSound fd {w} c h = record {
    state_is = cur_cases h.state_is;
    same = ap (λ (x : World). set_cur_fd fd x) h.same;
  }
    where
      cur_cases :
          (w.cmd.mark_state ≡ 0) ⊎ ((w.cmd.mark_state ≡ 1) × IsCur w.marks.cur_fd)
          → (w.cmd.mark_state ≡ 0) ⊎ ((w.cmd.mark_state ≡ 1) × IsCur fd)
      cur_cases (inl e) = inl e
      cur_cases (inr (e, d)) = inr (e, c)

  open_marks-IsSound : {w : World} → IsSound w0 w → IsSound w0 (open_marks w)
  unfolding open_marks
  open_marks-IsSound {w} h = either (w.cmd.mark_state == 0)
    where
      either :
          (b : Bool)
          → IsSound w0 (if b then on_cmd (λ c. record c { mark_state = 1 }) (mark_open w) else w)
      either true = opened-IsSound h
      either false = h

  before_write-IsSound :
      (fd : ℤ) (buf len : ℕ) {w : World} → IsSound w0 w → IsSound w0 (before_write fd buf len w)
  unfolding before_write
  before_write-IsSound fd buf len {w} h = either (needs_switch fd buf len w.marks.cur_fd) refl
    where
      either :
          (b : Bool)
          → needs_switch fd buf len w.marks.cur_fd ≡ b
          → IsSound w0
              (if b then set_cur_fd fd (switch_to_fd fd (switch_from_fd w.marks.cur_fd w)) else w)
      either true e = set_cur-IsSound fd (marked-IsCur fd w.marks.cur_fd buf len e) (
          OnlyIo-IsSound
            (OnlyIo-trans (switch_from-OnlyIo w.marks.cur_fd w) (switch_to-OnlyIo fd _)) h)
      either false e = h

  guard_ptrace-IsSound :
      (a : Allowed) (request : Request) (answer : Option ℤ) {w : World}
      → (harms answer ≡ true → a.aborts)
      → IsSound w0 w
      → Meets a (guard_ptrace request answer w) (λ rc w'. (rc ≡ rc_of answer) × IsSound w0 w')
  unfolding guard_ptrace after_ptrace
  guard_ptrace-IsSound a request answer {w} spared h =
      let called = OnlyIo-IsSound (trace-OnlyIo _ w) h in
      let asked =
        OnlyIo-IsSound (trace-OnlyIo (codes "< ptrace\n") _) (ask-IsSound request called) in
      answered (harms answer) _ spared (flagged (not (eq_ℤ (err_of answer) esrch)) asked)
    where
      flagged :
          (b : Bool) {v : World}
          → IsSound w0 v
          → IsSound w0 (if b then on_cmd (λ c. record c { child_exited = true }) v else v)
      flagged true k = set_exited-IsSound k
      flagged false k = k

      answered :
          (b : Bool) (u : World) {v : World}
          → (b ≡ true → a.aborts)
          → IsSound w0 v
          → Meets a
              (if b then abort u else ret (rc_of answer) v)
              (λ rc w'. (rc ≡ rc_of answer) × IsSound w0 w')
      answered true u k s = k refl
      answered false u k s = (refl, s)
