-- ===== src/Run/Tracee.antt =====
-- A whole run as the tracee sees it: the requests that it is sent.
use errmark.Prelude.{
  ap, some, minus_one, eq_ℤ, ◌&&◌, codes, and_false, ℕ, ℤ, true, Bool, List, [], ◌∷◌, ◌++◌,
  append-nil, ◌≡◌, refl, sym, subst, ◌∙◌,
}
use errmark.World.{World, Request, pure}
use errmark.World.Returns.{Returns}
use errmark.World.Keeps.{Keeps, Meets-when, anything, Keeps-then, Keeps→Returns, Keeps-bind}
use errmark.Guard.{guard_ptrace, after_ptrace, ask, esrch, close_marks}
use errmark.Run.Streams.{trace-OnlyIo}
use errmark.Writes.{Stop, Locals}
use errmark.Run.{
  broke, ends, round, examine, rounds, proceed, start_cmd, end_round, finish, run_parent,
  ptrace_cmd,
}
use errmark.Run.PassOn.{Allocates}
use errmark.Run.Script.{Event, stops_of, AreEvents}
use errmark.Run.Leaves.{IsQuiet}
use errmark.Run.Terminal.{run_parent-transcript, gone, run_parent-gone}
use errmark.Run.Asked.{close_marks-Still, OnlyIo-Still}
use errmark.Run.Requests.{Asked, Still-Asked, ask-Asked}
use errmark.Run.Flagged.{exited_after, script-Asked}
use errmark.Run.Events.{asks}

module _ (b : Bool) where
  -- The round that ends the loop asks for nothing.
  finish-Asked :
      (k : ℕ) (q : List Request) (w : World) → Asked q b w → Keeps (finish k w) (λ _. Asked q b)
  unfolding finish
  finish-Asked k q w a =
      let c = Still-Asked (close_marks-Still w) a in
      Keeps-bind (λ _. Asked q b) (λ _. Asked q b) _ (λ _. pure k)
        (Meets-when anything _ _ (Asked q b) (close_marks w) (and_false _ _ c.no_verbose) c)
        λ _ w' h. h

  end_round-Asked :
      (k : ℕ) (q : List Request) (w : World)
      → Asked q b w
      → Keeps (end_round k w) (λ r w'. (r ≡ broke k) × Asked q b w')
  unfolding end_round
  end_round-Asked k q w a =
      let c = Still-Asked (close_marks-Still w) a in
      Keeps-bind (λ _. Asked q b) _ _ _
        (Meets-when anything _ _ (Asked q b) (close_marks w) c.no_verbose c) λ _ w' h. (refl, h)

  end-Asked :
      (stop : Stop) (l : Locals) (q : List Request) (w : World)
      → ends stop.status ≡ true
      → Asked q b w
      → Keeps (rounds (stop ∷ []) l w) (λ _. Asked q b)
  unfolding rounds round
  end-Asked stop l q w e a =
      Keeps-bind (λ r w'. (r ≡ broke stop.status) × Asked q b w') _ _ _
        (Keeps-then _ _ (end_round stop.status) (examine stop l) w e
          (end_round-Asked stop.status q w a))
        λ r w' (p, h).
          subst (λ k. Keeps (proceed (λ l'. rounds [] l') k w') (λ _. Asked q b)) (sym p)
            (finish-Asked stop.status q w' h)

  -- GETREGS is the last request of a run whose child is gone.
  getregs-gone :
      (q : List Request) (w : World)
      → Asked q b w
      → w.cmd.child_exited ≡ true
      → Keeps (guard_ptrace Request.getregs (some esrch) w) (λ rc w'.
        (rc ≡ minus_one) × Asked (q ++ Request.getregs ∷ []) b w' × (w'.cmd.child_exited ≡ true))
  unfolding guard_ptrace after_ptrace
  getregs-gone q w a m =
      let first = trace-OnlyIo _ w in
      let second = trace-OnlyIo (codes "< ptrace\n") (ask Request.getregs _) in
      (
        refl,
        Still-Asked (OnlyIo-Still second)
            (ask-Asked Request.getregs (Still-Asked (OnlyIo-Still first) a)),
        ap (λ (v : World). v.cmd.child_exited) second.same
            ∙ ap (λ (v : World). v.cmd.child_exited) first.same
            ∙ m,
      )

  examine-gone :
      (last : Stop) (l : Locals) (q : List Request) (w : World)
      → Asked q b w
      → w.cmd.child_exited ≡ true
      → Keeps
          (examine (gone last) l w)
          (λ r w'. (r ≡ broke 0) × Asked (q ++ Request.getregs ∷ []) b w')
  unfolding examine
  examine-gone last l q w a m =
      Keeps-bind
        (λ (rc : ℤ) (u : World).
          (rc ≡ minus_one) × Asked (q ++ Request.getregs ∷ []) b u × (u.cmd.child_exited ≡ true))
        _ (guard_ptrace Request.getregs (some esrch) w) _ (getregs-gone q w a m)
        λ rc u (e, a', m').
          Keeps-then _ (eq_ℤ rc minus_one && u.cmd.child_exited) (pure (broke 0)) _ u
            (rw (e, m') refl) (refl, a')

  gone-Asked :
      (last : Stop) (l : Locals) (q : List Request) (w : World)
      → Asked q b w
      → w.cmd.child_exited ≡ true
      → Keeps (rounds (gone last ∷ []) l w) (λ _. Asked (q ++ Request.getregs ∷ []) b)
  unfolding rounds round
  gone-Asked last l q w a m =
      let q' = q ++ Request.getregs ∷ [] in
      Keeps-bind (λ r w'. (r ≡ broke 0) × Asked q' b w') _ (examine (gone last) l w) _
        (examine-gone last l q w a m)
        λ r u (p, h).
          subst (λ k. Keeps (proceed (λ l'. rounds [] l') k u) (λ _. Asked q' b)) (sym p)
            (finish-Asked 0 q' u h)

  run-Asked :
      (pid : ℤ) (es : List Event) (tail : List Stop) (more : List Request) (junk : Locals)
      (w : World)
      → AreEvents es
      → Asked w.requests b w
      → ((x : Bool) (l : Locals) (q : List Request) (v : World)
          → Asked q b v
          → v.cmd.child_exited ≡ exited_after es x
          → Keeps (rounds tail l v) (λ _. Asked (q ++ more) b))
      → Keeps
          (run_parent pid (stops_of es ++ tail) junk w)
          (λ _ w'. w'.requests ≡ (w.requests ++ asks b es) ++ more)
  unfolding run_parent ptrace_cmd
  run-Asked pid es tail more junk w ev a ending =
      let q = w.requests ++ asks b es in
      Keeps-bind (λ _. Asked w.requests b) _ _ _
        (Meets-when anything _ _ (Asked w.requests b) (start_cmd pid w) a.no_verbose (started a))
        λ _ u h.
          Keeps-bind (λ _. Asked (q ++ more) b) _ _ _
            (script-Asked b es tail _ w.requests u _ u.cmd.child_exited ev refl refl h
              λ l' v h' m. ending u.cmd.child_exited l' q v h' m)
            λ rc v h'. (close_marks-Still _).requests_are ∙ h'.requests_are
    where
      started : Asked w.requests b w → Asked w.requests b (start_cmd pid w)
      started h = record {
        requests_are = refl;
        nullify_is = h.nullify_is;
        no_verbose = h.no_verbose;
      }

-- The requests that a run of a program makes by `guard_ptrace` (all requests to the tracee but
-- PTRACE_PEEKDATA, by which the data of the marked writes is read) are just these, in this order:
-- at each stop of a call GETREGS, and at the end of the round PTRACE_SYSCALL; in between, at the
-- entry of a marked write, a SETREGS, under `nullify` to a length of 0; at the exit of a marked
-- write, a SETREGS, under `nullify` to the length that the program asked for as the result; and at
-- the exit of another write, a SETREGS to the registers as they were. The program's writes are
-- readable, no messages are asked for, malloc gives blocks of the size asked for, and the run ends
-- with a status that is no stop by SIGTRAP or SIGCHLD.
pub run_parent-asks :
    (w : World)
    → IsQuiet w
    → Allocates w.libc
    → (pid : ℤ) (es : List Event) → AreEvents es
    → (last : Stop) → ends last.status ≡ true
    → (junk : Locals)
    → Returns
        (run_parent pid (stops_of es ++ last ∷ []) junk w)
        (λ rc w'. w'.requests ≡ w.requests ++ asks w.cmd.nullify es)
run_parent-asks w q m pid es ev last e junk =
    Keeps→Returns _ _ (run_parent pid (stops_of es ++ last ∷ []) junk w)
      (run_parent-transcript w q m pid es ev last e junk)
      (subst
        (λ (r : List Request).
          Keeps (run_parent pid (stops_of es ++ last ∷ []) junk w) (λ rc w'. w'.requests ≡ r))
        (append-nil _)
        (run-Asked w.cmd.nullify pid es (last ∷ []) [] junk w ev
          (record { requests_are = refl; nullify_is = refl; no_verbose = q.no_verbose })
          λ x l r v a _. rw append-nil (end-Asked w.cmd.nullify last l r v e a)))

-- The same for a child that is gone, with one more GETREGS.
pub run_parent-asks_last :
    (w : World)
    → IsQuiet w
    → Allocates w.libc
    → (pid : ℤ) (e : Event) (es : List Event) → AreEvents (e ∷ es)
    → (last : Stop) (junk : Locals)
    → Returns
        (run_parent pid (stops_of (e ∷ es) ++ gone last ∷ []) junk w)
        (λ rc w'. w'.requests ≡ (w.requests ++ asks w.cmd.nullify (e ∷ es)) ++ Request.getregs ∷ [])
run_parent-asks_last w q m pid e es ev last junk =
    Keeps→Returns _ _ (run_parent pid (stops_of (e ∷ es) ++ gone last ∷ []) junk w)
      (run_parent-gone w q m pid e es ev last junk)
      (run-Asked w.cmd.nullify pid (e ∷ es) (gone last ∷ []) (Request.getregs ∷ []) junk w ev
        (record { requests_are = refl; nullify_is = refl; no_verbose = q.no_verbose })
        λ x l r v a m'. gone-Asked w.cmd.nullify last l r v a m')
