-- ===== src/Run/Lost.antt =====
-- A run whose tracee does not exist: wait(2) fails and each ptrace request gives ESRCH. So it is
-- after a fork that failed, where `cmd->child` is -1.
use errmark.Prelude.{
  ◌==◌, ◌≡◌, refl, ap, ◌∙◌, subst, sym, false, some, minus_one, eq_ℤ, ◌&&◌, List, [], ◌∷◌, ℤ, Bytes,
  arith,
}
use errmark.World.{World, Request, Outcome, M, ret, exit, abort, undefined, wait, bind, pure}
use errmark.World.Returns.{Returns, Returns-bind, Returns-else}
use errmark.Guard.{guard_ptrace, after_ptrace, trace, ask, esrch}
use errmark.Writes.{Stop, Locals, sys_write}
use errmark.Run.{next, round, examine, resume, proceed, rounds, ptrace_cmd, run_parent}

-- The call does not end by itself: it waits for another event.
abbrev pub Waits {ℓ} : {A : Type ℓ} → Outcome A → Type 0
Waits (ret a w) = ⊥
Waits (exit code w) = ⊥
Waits (abort w) = ⊥
Waits (undefined w) = ⊥
Waits (wait w) = Unit {0}

Waits-bind {ℓ κ} :
    {A : Type ℓ} {B : Type κ} (P : A → World → Type 0) (o : Outcome A) (f : A → M B)
    → Returns o P
    → ((a : A) (w : World) → P a w → Waits (f a w))
    → Waits (bind o f)
Waits-bind P (ret a w) f h k = k a w h
Waits-bind P (exit code w) f h k = absurd h
Waits-bind P (abort w) f h k = absurd h
Waits-bind P (undefined w) f h k = absurd h
Waits-bind P (wait w) f h k = absurd h

Waits-on {ℓ κ} :
    {A : Type ℓ} {B : Type κ} (o : Outcome A) (f : A → M B) → Waits o → Waits (bind o f)
Waits-on (ret a w) f h = absurd h
Waits-on (exit code w) f h = absurd h
Waits-on (abort w) f h = absurd h
Waits-on (undefined w) f h = absurd h
Waits-on (wait w) f h = tt

-- What the kernel answers in one round where there is no child.
abbrev pub lost : Stop → Stop
lost stop = record stop { status = 0; getregs_errno = some esrch; syscall_errno = some esrch }

abbrev pub all_lost : List Stop → List Stop
all_lost [] = []
all_lost (stop ∷ stops) = lost stop ∷ all_lost stops

trace-exited : (text : Bytes) (w : World) → (trace text w).cmd.child_exited ≡ w.cmd.child_exited
unfolding trace
trace-exited text w = ground arith

-- A request that finds no process leaves the flag as it was.
guard_ptrace-lost :
    (request : Request) (w : World)
    → w.cmd.child_exited ≡ false
    → Returns
        (guard_ptrace request (some esrch) w)
        (λ rc w'. (rc ≡ minus_one) × (w'.cmd.child_exited ≡ false))
unfolding guard_ptrace after_ptrace
guard_ptrace-lost request w h =
    (refl, trace-exited _ (ask request (trace _ w)) ∙ (trace-exited _ w ∙ h))

resume-lost :
    (stop : Stop) (l : Locals) (w : World)
    → (l.regs.reg_syscall == sys_write) ≡ false
    → w.cmd.child_exited ≡ false
    → Returns (resume (lost stop) l w) (λ r w'. (r ≡ next l) × (w'.cmd.child_exited ≡ false))
unfolding resume
resume-lost stop l w n h =
    Returns-bind (λ l' w'. (l' ≡ l) × (w'.cmd.child_exited ≡ false)) _ _ _
      (Returns-else _ (l.regs.reg_syscall == sys_write) _ (pure l) w n (refl, h))
      λ l' w' (q, h').
        Returns-bind (λ rc u. (rc ≡ minus_one) × (u.cmd.child_exited ≡ false)) _ _ _
          (guard_ptrace-lost Request.syscall w' h') λ rc u (p, k). (ap next q, k)

round-lost :
    (stop : Stop) (l : Locals) (w : World)
    → (l.regs.reg_syscall == sys_write) ≡ false
    → w.cmd.child_exited ≡ false
    → Returns (round (lost stop) l w) (λ r w'. (r ≡ next l) × (w'.cmd.child_exited ≡ false))
unfolding round examine
round-lost stop l w n h =
    Returns-bind (λ rc w'. (rc ≡ minus_one) × (w'.cmd.child_exited ≡ false)) _ _ _
      (guard_ptrace-lost Request.getregs w h)
      λ rc w' (q, h').
        Returns-else _ (eq_ℤ rc minus_one && w'.cmd.child_exited) _ _ w'
          (ap (λ k. eq_ℤ k minus_one && w'.cmd.child_exited) q ∙ h') (resume-lost stop l w' n h')

rounds-lost :
    (stops : List Stop) (l : Locals) (w : World)
    → (l.regs.reg_syscall == sys_write) ≡ false
    → w.cmd.child_exited ≡ false
    → Waits (rounds (all_lost stops) l w)
unfolding rounds
rounds-lost [] l w n h = tt
rounds-lost (stop ∷ stops) l w n h =
    Waits-bind (λ r w'. (r ≡ next l) × (w'.cmd.child_exited ≡ false)) _ _ (round-lost stop l w n h)
      λ r w' (q, h').
        subst (λ k. Waits (proceed (λ l'. rounds (all_lost stops) l') k w')) (sym q)
          (rounds-lost stops l w' n h')

-- Where there is no child (wait(2) fails, and GETREGS and PTRACE_SYSCALL give ESRCH each time), the
-- uninitialised registers do not happen to hold the number of write(2), and no messages are asked
-- for, the run goes on for as many rounds as one likes, and never returns.
pub run_parent-Waits :
    (w : World)
    → w.cmd.verbose ≡ false
    → (pid : ℤ) (stops : List Stop) (junk : Locals) → (junk.regs.reg_syscall == sys_write) ≡ false
    → Waits (run_parent pid (all_lost stops) junk w)
unfolding run_parent ptrace_cmd
run_parent-Waits w v pid stops junk n =
    rw (v, run_parent)
      (Waits-on (ptrace_cmd (all_lost stops) junk _) _ (rounds-lost stops _ _ n refl))
