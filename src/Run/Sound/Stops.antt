-- ===== src/Run/Sound/Stops.antt =====
-- What a round does to the state, whatever the kernel answers, and how it may end.
use errmark.Prelude.{
  ℕ, ℤ, Bool, true, false, minus_one, eq_ℤ, ◌&&◌, ◌||◌, ◌==◌, codes, Bytes, ◌≡◌, ◌⊎◌, inl, inr,
  refl, Option, none, some, if◌then◌else◌, arith,
}
use errmark.World.{World, eprint, when, pure}
use errmark.World.Keeps.{Allowed, Meets, Meets-bind}
use errmark.Guard.{rc_of, close_marks, trace}
use errmark.Guard.Chunks.{close-OnlyIo}
use errmark.Cscript.Errors.{allocated}
use errmark.Writes.{
  Stop, Locals, write_marked, write_enter, write_leave, write_stop, marked_fd, at_entry, as_int,
  sys_write,
}
use errmark.Run.{Round, next, broke, round, examine, resume, end_round, ends, fetched}
use errmark.Run.Streams.{
  OnlyIo, OnlyIo-if, OnlyIo-refl, trace-OnlyIo, after_write-OnlyIo, debug_write-OnlyIo,
  debug_say-OnlyIo, pass_on-Meets,
}
use errmark.Run.Sound.{
  IsSound, OnlyIo-IsSound, open_marks-IsSound, before_write-IsSound, guard_ptrace-IsSound, harms,
}

-- The variable `toggle` is a flag.
abbrev pub IsFlag : Locals → Type 0
IsFlag l = (l.toggle ≡ 0) ⊎ (l.toggle ≡ 1)

abbrev pub Good : World → Locals → World → Type 0
Good w0 l w = IsFlag l × IsSound w0 w

-- One of the requests that are made at the stop fails so that the program aborts.
abbrev pub stop_harms : Stop → Bool
stop_harms stop = harms stop.getregs_errno || harms stop.setregs_errno || harms stop.syscall_errno

abbrev pub is_failure : Option ℤ → Bool
is_failure none = false
is_failure (some errno) = true

-- The loop is left with the status of a stop that ends it, or with 0 where GETREGS fails.
abbrev pub LeftAt : Stop → ℕ → Type 0
LeftAt stop rc =
    ((ends stop.status ≡ true) × (rc ≡ stop.status))
    ⊎ ((ends stop.status ≡ false) × (is_failure stop.getregs_errno ≡ true) × (rc ≡ 0))

-- The loop goes on in a good state, or it is left.
abbrev pub GoesOn : World → Stop → Round → World → Type 0
GoesOn w0 stop (next l) w = (ends stop.status ≡ false) × Good w0 l w
GoesOn w0 stop (broke status) w = IsSound w0 w × LeftAt stop status

-- How a call ends that malloc or the stream for messages fails, from `w0` on, is allowed.
pub record Tolerates (a : Allowed) (w0 : World) : Type 0 where
  pub unserved :
      (n : ℕ) (w : World)
      → IsSound w0 w
      → w.libc.malloc n ≡ none
      → Meets a (allocated n none w) (λ _. OnlyIo w)
  pub noted :
      (text : Bytes) (w : World)
      → IsSound w0 w
      → Meets a (when w.cmd.verbose (eprint text) w) (λ _. OnlyIo w)

failed_by :
    (answer : Option ℤ) (rc : ℤ) (exited : Bool)
    → rc ≡ rc_of answer
    → (eq_ℤ rc minus_one && exited) ≡ true
    → is_failure answer ≡ true
failed_by none rc exited q e = absurd (ground arith)
failed_by (some errno) rc exited q e = refl

module _ {a : Allowed} {w0 : World} (tolerant : Tolerates a w0) (stop : Stop)
    (spared : stop_harms stop ≡ true → a.aborts) where
  abbrev Answered : Option ℤ → ℤ → World → Type 0
  Answered answer rc w = (rc ≡ rc_of answer) × IsSound w0 w

  spared_getregs : harms stop.getregs_errno ≡ true → a.aborts
  spared_getregs h = spared (rw h refl)

  spared_setregs : harms stop.setregs_errno ≡ true → a.aborts
  spared_setregs h = spared (ground arith)

  spared_syscall : harms stop.syscall_errno ≡ true → a.aborts
  spared_syscall h = spared (ground arith)

  write_marked-Good :
      (l : Locals) {w : World} → IsFlag l → IsSound w0 w → Meets a (write_marked stop l w) (Good w0)
  unfolding write_marked
  write_marked-Good l {w} f h =
      Meets-bind a (Answered stop.setregs_errno) (Good w0) _ _
        (guard_ptrace-IsSound a _ stop.setregs_errno spared_setregs
          (before_write-IsSound l.wfd l.waddr l.wlen (open_marks-IsSound h)))
        λ _ u (_, k).
          let k' = OnlyIo-IsSound (trace-OnlyIo (codes "> write\n") u) k in
          Meets-bind a (λ _. OnlyIo (trace (codes "> write\n") u)) (Good w0) _ _
            (pass_on-Meets a stop.peek l.wfd l.waddr l.wlen _ (tolerant.unserved l.wlen _ k'))
            λ _ v only. (f, OnlyIo-IsSound only k')

  write_enter-Good :
      (l : Locals) {w : World} → IsSound w0 w → Meets a (write_enter stop l.regs w) (Good w0)
  unfolding write_enter
  write_enter-Good l {w} h =
      let l' = at_entry l.regs (as_int l.regs.reg_arg1) in
      marked (marked_fd l'.wfd) l' (inr refl) (OnlyIo-IsSound (debug_write-OnlyIo l' w) h)
    where
      marked :
          (b : Bool) (l' : Locals) {v : World}
          → IsFlag l'
          → IsSound w0 v
          → Meets a ((if b then write_marked stop l' else pure l') v) (Good w0)
      marked true l' f k = write_marked-Good l' f k
      marked false l' f k = (f, k)

  write_leave-Good :
      (l : Locals) {w : World} → IsSound w0 w → Meets a (write_leave stop l w) (Good w0)
  unfolding write_leave
  write_leave-Good l {w} h =
      Meets-bind a (Answered stop.setregs_errno) (Good w0) _ _
        (guard_ptrace-IsSound a _ stop.setregs_errno spared_setregs (
          OnlyIo-IsSound
            (OnlyIo-if (marked_fd l.wfd) (after_write-OnlyIo l.wfd l.waddr l.wlen w)
              (OnlyIo-refl w))
            h))
        λ _ u (_, k). (inl refl, OnlyIo-IsSound (trace-OnlyIo _ u) k)

  write_stop-Good :
      (l : Locals) {w : World} → IsSound w0 w → Meets a (write_stop stop l w) (Good w0)
  unfolding write_stop
  write_stop-Good l {w} h =
      Meets-bind a (Good w0) (Good w0) _ _
        (toggled (l.toggle == 0) (OnlyIo-IsSound (debug_say-OnlyIo w.debug _ w) h))
        λ l' u (f, k). (f, OnlyIo-IsSound (debug_say-OnlyIo u.cmd.debug _ u) k)
    where
      toggled :
          (b : Bool) {v : World}
          → IsSound w0 v
          → Meets a ((if b then write_enter stop l.regs else write_leave stop l) v) (Good w0)
      toggled true k = write_enter-Good l k
      toggled false k = write_leave-Good l k

  resume-GoesOn :
      (l : Locals) {w : World}
      → ends stop.status ≡ false
      → Good w0 l w
      → Meets a (resume stop l w) (GoesOn w0 stop)
  unfolding resume
  resume-GoesOn l {w} on (f, h) =
      Meets-bind a (Good w0) (GoesOn w0 stop) _ _ (at_write (l.regs.reg_syscall == sys_write))
        λ l' u (f', k).
          Meets-bind a (Answered stop.syscall_errno) (GoesOn w0 stop) _ _
            (guard_ptrace-IsSound a _ stop.syscall_errno spared_syscall k)
            λ _ v (_, k'). (on, (f', k'))
    where
      at_write : (b : Bool) → Meets a ((if b then write_stop stop l else pure l) w) (Good w0)
      at_write true = write_stop-Good l h
      at_write false = (f, h)

  examine-GoesOn :
      (l : Locals) {w : World}
      → ends stop.status ≡ false
      → Good w0 l w
      → Meets a (examine stop l w) (GoesOn w0 stop)
  unfolding examine
  examine-GoesOn l {w} on (f, h) =
      Meets-bind a (Answered stop.getregs_errno) (GoesOn w0 stop) _ _
        (guard_ptrace-IsSound a _ stop.getregs_errno spared_getregs h)
        λ rc u (q, k).
          unless (eq_ℤ rc minus_one && u.cmd.child_exited) u
            (λ e. failed_by stop.getregs_errno rc u.cmd.child_exited q e) k
    where
      l' : Locals
      l' = record l { regs = fetched stop.getregs_errno stop.regs l.regs }

      unless :
          (b : Bool) (u : World)
          → (b ≡ true → is_failure stop.getregs_errno ≡ true)
          → IsSound w0 u
          → Meets a ((if b then pure (broke 0) else resume stop l') u) (GoesOn w0 stop)
      unless true u bad k = (k, inr (on, bad refl, refl))
      unless false u bad k = resume-GoesOn l' on (f, k)

  end_round-GoesOn :
      (w : World)
      → ends stop.status ≡ true
      → IsSound w0 w
      → Meets a (end_round stop.status w) (GoesOn w0 stop)
  unfolding end_round
  end_round-GoesOn w over h =
      let w' = close_marks w in
      let h' = OnlyIo-IsSound (close-OnlyIo w) h in
      Meets-bind a (λ _. OnlyIo w') (GoesOn w0 stop) _ _ (tolerant.noted _ w' h')
        λ _ v only. (OnlyIo-IsSound only h', inl (over, refl))

  pub round-GoesOn :
      (l : Locals) {w : World} → Good w0 l w → Meets a (round stop l w) (GoesOn w0 stop)
  unfolding round
  round-GoesOn l {w} g = ended (ends stop.status) refl
    where
      ended :
          (b : Bool)
          → ends stop.status ≡ b
          → Meets a ((if b then end_round stop.status else examine stop l) w) (GoesOn w0 stop)
      ended true over = end_round-GoesOn w over (g.1)
      ended false on = examine-GoesOn l on g
