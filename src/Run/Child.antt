-- ===== src/Run/Child.antt =====
-- The child of the fork, up to the start of the program or its end.
use errmark.Prelude.{
  ℤ, pos, minus_one, eq_ℤ, Option, none, some, Bool, Bool-cases, inl, inr, [], ◌∷◌, ◌++◌, ◌≡◌, ap,
  ◌∙◌,
}
use errmark.Stdio.{Stream}
use errmark.World.{World, Request, Outcome, M, ret, exit, abort, bind, eprint, fprint, print_stderr}
use errmark.Guard.{esrch}
use errmark.Guard.Ending.{Sent, Guarded, succeeded, no_process, fatal, guard_ptrace-Guarded}
use errmark.Run.{Exec, replaced, returned, start_cmd, run_child}

-- PTRACE_TRACEME has been requested, and nothing else.
abbrev pub Traceme : World → World → Type 0
Traceme w w' = w'.requests ≡ w.requests ++ Request.traceme ∷ []

-- The answer lets the child go on: the request succeeds, or it fails with ESRCH.
pub data GoesOn : Option ℤ → Type 0 where
  granted : GoesOn none
  not_found : GoesOn (some esrch)

-- The three ways on for the child, by the answer to the request and the end of execvp(3).
pub data Child (w : World) : Option ℤ → Exec → Outcome (Unit {0}) → Type 0 where
  refused :
      {errno : ℤ} {exec : Exec} {w' : World}
      → (errno ≡ esrch → ⊥)
      → Traceme w w'
      → Child w (some errno) exec (abort w')
  runs :
      {traced : Option ℤ} {w' : World}
      → GoesOn traced
      → Traceme w w'
      → Child w traced replaced (ret tt w')
  not_run :
      {traced : Option ℤ} {rc errno : ℤ} {w' : World}
      → GoesOn traced
      → Traceme w w'
      → Child w traced (returned rc errno) (exit 2 w')

Sent-requests :
    {request : Request} {b : Bool} {w w' : World}
    → Sent request b w w'
    → w'.requests ≡ w.requests ++ request ∷ []
Sent-requests s = ap (λ (x : World). x.requests) s.same

Sent-errprint :
    {request : Request} {b : Bool} {w w' : World}
    → Sent request b w w'
    → w'.errprint_fh ≡ w.errprint_fh
Sent-errprint s = ap (λ (x : World). x.errprint_fh) s.same

-- From the request on.
after_request :
    {traced : Option ℤ} {exec : Exec} {f : Stream} {w : World} (go : ℤ → M (Unit {0}))
    {o : Outcome ℤ}
    → Guarded Request.traceme (start_cmd (pos 0) w) traced o
    → w.errprint_fh ≡ some f
    → ((rc : ℤ) (w' : World)
        → GoesOn traced
        → Traceme w w'
        → w'.errprint_fh ≡ some f
        → Child w traced exec (go rc w'))
    → Child w traced exec (bind o go)
after_request go (succeeded s sent) e k = k _ _ granted (Sent-requests s) (Sent-errprint s ∙ e)
after_request go (no_process s sent) e k = k _ _ not_found (Sent-requests s) (Sent-errprint s ∙ e)
after_request go (fatal alive s sent) e k = refused alive (Sent-requests s)

-- The child of the fork requests PTRACE_TRACEME, and nothing else of ptrace(2); where that fails
-- with another errno than ESRCH (and than 0), it is aborted; where it succeeds, or fails with
-- ESRCH, and only there, it goes on as the program, if execvp(3) replaces it, and exits with 2, if
-- execvp(3) returns, whatever it returns. There is a stream for messages.
pub run_child-Child :
    (traced : Option ℤ) (exec : Exec) (f : Stream) (w : World)
    → (traced ≡ some (pos 0) → ⊥)
    → w.errprint_fh ≡ some f
    → Child w traced exec (run_child traced exec w)
unfolding run_child eprint fprint print_stderr
run_child-Child traced replaced f w nonzero e =
    after_request _ (guard_ptrace-Guarded Request.traceme (start_cmd (pos 0) w) traced nonzero) e
      λ rc w' g t e'. runs g t
run_child-Child traced (returned rc errno) f w nonzero e =
    after_request _ (guard_ptrace-Guarded Request.traceme (start_cmd (pos 0) w) traced nonzero) e
      λ answer w' g t e'. elim (Bool-cases (eq_ℤ rc minus_one)) [
        | inl failed ↦ rw failed (not_run g t)
        | inr other ↦ rw (other, e') (not_run g t)
      ]
