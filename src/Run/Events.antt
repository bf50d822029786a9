-- ===== src/Run/Events.antt =====
-- The requests of the rounds of one event.
use errmark.Prelude.{
  pos, true, none, refl, ℕ, Bool, List, [], ◌∷◌, ◌++◌, ◌≡◌, ap, ◌==◌, if◌then◌else◌,
}
use errmark.World.{World, Regs, Request, pure, bind}
use errmark.World.Keeps.{Keeps, Keeps-then, Keeps-else, Keeps-bind, Keeps-any, Keeps-both}
use errmark.Pmem.{Peek}
use errmark.Guard.{guard_ptrace, after_ptrace}
use errmark.Writes.{
  Stop, Locals, as_int, marked_fd, sys_write, write_enter, write_leave, write_stop,
}
use errmark.Run.{Round, next, broke, round, resume, examine, rounds, proceed}
use errmark.Run.Script.{Write, Event, wrote, called, stop_with, no_peek, IsEvent}
use errmark.Run.Rounds.{Goes}
use errmark.Run.Asked.{OnlyIo-Still}
use errmark.Run.Streams.{debug_say-OnlyIo}
use errmark.Run.Requests.{
  Asked, Still-Asked, Between, at_enter, at_leave, then-Asked, write_enter-Asked, write_leave-Asked,
}

-- What is asked for at one event. A write to a marked descriptor runs with no bytes to write, if it
-- is nullified, and then returns the length that the program asked for.
abbrev pub asks_of : Bool → Event → List Request
asks_of b (wrote wr) =
    let marked = marked_fd (as_int wr.entry.reg_arg1) in
    Request.getregs
    ∷ (at_enter b marked wr.entry
        ++ Request.syscall
          ∷ Request.getregs
          ∷ at_leave b marked wr.leave wr.entry.reg_arg3
          ∷ Request.syscall
          ∷ [])
asks_of b (called regs) = Request.getregs ∷ Request.syscall ∷ []

abbrev pub asks : Bool → List Event → List Request
asks b [] = []
asks b (e ∷ es) = asks_of b e ++ asks b es

module _ (b : Bool) where
  write_stop-Asked :
      (stop : Stop) (P : Locals → Type 0) (l : Locals) (q q' : List Request) (w : World)
      → Asked q b w
      → ((u : World)
          → Asked q b u
          → Keeps
              ((if l.toggle == 0 then write_enter stop l.regs else write_leave stop l) u)
              (λ l' w'. P l' × Asked q' b w'))
      → Keeps (write_stop stop l w) (λ l' w'. P l' × Asked q' b w')
  unfolding write_stop
  write_stop-Asked stop P l q q' w a step =
      Keeps-bind (λ l' w'. P l' × Asked q' b w') _ _ _
        (step _ (Still-Asked (OnlyIo-Still (debug_say-OnlyIo w.debug _ w)) a))
        λ l' u (p, a'). (p, Still-Asked (OnlyIo-Still (debug_say-OnlyIo u.cmd.debug _ u)) a')

  resume-Asked :
      (regs : Regs) (peek : ℕ → Peek) (P : Locals → Type 0) (l : Locals) (q : List Request)
      (w : World)
      → Keeps
          ((if l.regs.reg_syscall == sys_write then write_stop (stop_with regs peek) l else pure l)
            w)
          (λ l' w'. P l' × Asked q b w')
      → Keeps
          (resume (stop_with regs peek) l w)
          (λ r w'. Goes r P × Asked (q ++ Request.syscall ∷ []) b w')
  unfolding resume
  resume-Asked regs peek P l q w step =
      Keeps-bind (λ l' w'. P l' × Asked q b w') _ _ _ step
        λ l' u (p, a). then-Asked _ _ _ a λ rc v _ a'. (p, a')

  round-Asked :
      (regs : Regs) (peek : ℕ → Peek) (P : Locals → Type 0) (l : Locals) (q q' : List Request)
      (w : World)
      → Asked q b w
      → ((u : World)
          → Asked (q ++ Request.getregs ∷ []) b u
          → Keeps
              (resume (stop_with regs peek) (record l { regs = regs }) u)
              (λ r w'. Goes r P × Asked q' b w'))
      → Keeps (round (stop_with regs peek) l w) (λ r w'. Goes r P × Asked q' b w')
  unfolding round examine
  round-Asked regs peek P l q q' w a go = then-Asked _ _ _ a λ rc u zeroed a'. rw zeroed (go u a')

  -- PTRACE_SYSCALL is the last request of a round, and succeeds.
  syscall-exited :
      (l : Locals) (w : World)
      → Keeps
          (bind (guard_ptrace Request.syscall none w) (λ _. pure (next l)))
          (λ _ w'. w'.cmd.child_exited ≡ true)
  unfolding guard_ptrace after_ptrace
  syscall-exited l w = refl

  resume-exited :
      (regs : Regs) (peek : ℕ → Peek) (l : Locals) (w : World)
      → Keeps (resume (stop_with regs peek) l w) (λ _ w'. w'.cmd.child_exited ≡ true)
  unfolding resume
  resume-exited regs peek l w =
      let o =
        (if l.regs.reg_syscall == sys_write then write_stop (stop_with regs peek) l else pure l)
          w in
      Keeps-bind (λ _ _. Unit {0}) (λ _ w'. w'.cmd.child_exited ≡ true) o
        (λ l' u. bind (guard_ptrace Request.syscall none u) (λ _. pure (next l'))) (Keeps-any o)
        λ l' u _. syscall-exited l' u

  round-exited :
      (regs : Regs) (peek : ℕ → Peek) (l : Locals) (w : World)
      → Keeps (round (stop_with regs peek) l w) (λ _ w'. w'.cmd.child_exited ≡ true)
  unfolding round examine guard_ptrace
  round-exited regs peek l w =
      resume-exited regs peek (record l { regs = regs }) (after_ptrace Request.getregs (pos 0) w)

  pub rounds-Asked :
      (regs : Regs) (peek : ℕ → Peek) (stops : List Stop) (P : Locals → Type 0)
      (Q : ℕ → World → Type 0) (l : Locals) (q : List Request) (w : World)
      → Keeps (round (stop_with regs peek) l w) (λ r w'. Goes r P × Asked q b w')
      → ((l' : Locals) (u : World)
          → P l'
          → Asked q b u
          → u.cmd.child_exited ≡ true
          → Keeps (rounds stops l' u) Q)
      → Keeps (rounds (stop_with regs peek ∷ stops) l w) Q
  unfolding rounds
  rounds-Asked regs peek stops P Q l q w e go =
      Keeps-bind (λ r w'. (Goes r P × Asked q b w') × (w'.cmd.child_exited ≡ true)) Q _ _
        (Keeps-both _ _ (round (stop_with regs peek) l w) e (round-exited regs peek l w)) on
    where
      on :
          (r : Round) (u : World)
          → (Goes r P × Asked q b u) × (u.cmd.child_exited ≡ true)
          → Keeps (proceed (λ l'. rounds stops l') r u) Q
      on (next l') u ((p, a), x) = go l' u p a x
      on (broke status) u ((p, a), x) = absurd p

  pub enter-Asked :
      (wr : Write) (l : Locals) (q : List Request) (w : World)
      → IsEvent (wrote wr)
      → l.toggle ≡ 0
      → Asked q b w
      → Keeps (round (stop_with wr.entry wr.peek) l w) (λ r w'.
        Goes r (Between (as_int wr.entry.reg_arg1) wr.entry.reg_arg3)
        × Asked
            (((q ++ Request.getregs ∷ [])
                ++ at_enter b (marked_fd (as_int wr.entry.reg_arg1)) wr.entry)
              ++ Request.syscall ∷ [])
            b
            w')
  enter-Asked wr l q w ev zeroed a =
      let stop = stop_with wr.entry wr.peek in
      let l' : Locals = record l { regs = wr.entry } in
      round-Asked wr.entry wr.peek _ l q _ w a λ u a1. resume-Asked wr.entry wr.peek _ l' _ u (
        Keeps-then _ _ (write_stop stop l') (pure l') u (ap (λ n. n == sys_write) ev.0) (
          write_stop-Asked stop _ l' _ _ u a1 λ v a2.
            Keeps-then _ _ (write_enter stop wr.entry) (write_leave stop l') v
              (ap (λ n. n == 0) zeroed) (write_enter-Asked wr.entry wr.peek _ v a2)))

  pub leave-Asked :
      (wr : Write) (l : Locals) (q : List Request) (w : World)
      → IsEvent (wrote wr)
      → Between (as_int wr.entry.reg_arg1) wr.entry.reg_arg3 l
      → Asked q b w
      → Keeps (round (stop_with wr.leave no_peek) l w) (λ r w'.
        Goes r (λ l'. l'.toggle ≡ 0)
        × Asked
            (((q ++ Request.getregs ∷ [])
                ++ at_leave b (marked_fd (as_int wr.entry.reg_arg1)) wr.leave wr.entry.reg_arg3
                  ∷ [])
              ++ Request.syscall ∷ [])
            b
            w')
  leave-Asked wr l q w ev mid a =
      let stop = stop_with wr.leave no_peek in
      let l' : Locals = record l { regs = wr.leave } in
      round-Asked wr.leave no_peek _ l q _ w a λ u a1. resume-Asked wr.leave no_peek _ l' _ u (
        Keeps-then _ _ (write_stop stop l') (pure l') u (ap (λ n. n == sys_write) ev.1) (
          write_stop-Asked stop _ l' _ _ u a1 λ v a2.
            Keeps-else _ _ (write_enter stop wr.leave) (write_leave stop l') v
              (ap (λ n. n == 0) mid.toggle_is)
              (rw (← mid.wfd_is, ← mid.wlen_is) (write_leave-Asked wr.leave no_peek l' _ v a2))))

  pub call-Asked :
      (regs : Regs) (l : Locals) (q : List Request) (w : World)
      → IsEvent (called regs)
      → l.toggle ≡ 0
      → Asked q b w
      → Keeps (round (stop_with regs no_peek) l w) (λ r w'.
        Goes r (λ l'. l'.toggle ≡ 0)
        × Asked ((q ++ Request.getregs ∷ []) ++ Request.syscall ∷ []) b w')
  call-Asked regs l q w ev zeroed a =
      let l' : Locals = record l { regs = regs } in
      round-Asked regs no_peek _ l q _ w a λ u a1.
        resume-Asked regs no_peek _ l' _ u
          (Keeps-else _ _ (write_stop (stop_with regs no_peek) l') (pure l') u ev (zeroed, a1))
