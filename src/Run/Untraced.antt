-- ===== src/Run/Untraced.antt =====
-- Under errmark the program goes through the states that it goes through on its own.
use errmark.Prelude.{
  ◌==◌, ℕ, ◌≤◌, ◌≡◌, sym, ap, subst, ◌∙◌, Bool-cases, inl, inr, true, false, Option, none, some,
  List, [], ◌∷◌, ◌++◌, ℤ, Bytes, arith,
}
use errmark.World.{World, Regs, Request}
use errmark.Marks.Transcript.{Fd, Piece}
use errmark.Pmem.Memory.{bytes_at}
use errmark.Writes.{Stop, Locals, marked_fd, as_int, sys_write}
use errmark.Run.Script.{
  AreEvents, stops_of, Write, Event, wrote, called, piece_of, fd_of, data_of, piece_at, put, pieces,
}
use errmark.Run.{run_parent}
use errmark.Run.Events.{asks_of, asks}
use errmark.Run.PassOn.{Allocates}
use errmark.Run.Leaves.{IsQuiet, Leaves}
use errmark.Run.Launch.{Closes, run_parent-Closes}
use errmark.World.Returns.{Returns}
use errmark.Run.Program.{
  Program, with_result, Performs, in_force, resumed, is_marked, kernel_piece, Untraced, Follows,
  ended, ends_by, at_last, wrote_whole, wrote_other, made_call, at_end, at_write, at_call,
}

-- Behind a write to 1 or 2, with whatever result, the program goes on in the same way whatever the
-- register of the length is.
abbrev pub ForgetsLength : Program → Type 0
ForgetsLength p =
    (s : p.State) (entry : Regs) (n k : ℕ)
    → p.Calls s entry
    → entry.reg_syscall ≡ sys_write
    → marked_fd (as_int entry.reg_arg1) ≡ true
    → p.resume s (record (with_result entry n) { reg_arg3 = k }) ≡ p.resume s (with_result entry n)

-- The pieces have no bytes.
abbrev pub AreEmpty : List Piece → Type 0
AreEmpty [] = Unit {0}
AreEmpty (p ∷ ps) = (p.text ≡ []) × AreEmpty ps

unmarked_none : (x : ℤ) → marked_fd x ≡ false → fd_of x ≡ none
unmarked_none x h = ground arith

put-AreEmpty :
    (o : Option Fd) (text : Bytes) (ps : List Piece)
    → text ≡ []
    → AreEmpty ps
    → AreEmpty (put (piece_at o text) ps)
put-AreEmpty none text ps h e = e
put-AreEmpty (some fd) text ps h e = (h, e)

no_bytes : (mem : ℕ → ℕ) (a n : ℕ) → n ≤ 0 → bytes_at mem a n ≡ []
no_bytes mem a n h = let e : n ≡ 0 = omega arith in rw e

-- What is in force at the two stops of a nullified write.
marked_entry :
    (wr : Write)
    → is_marked wr ≡ true
    → in_force (asks_of true (wrote wr)) wr.entry ≡ record (wr.entry) { reg_arg3 = 0 }
marked_entry wr h = rw h

marked_exit :
    (wr : Write)
    → is_marked wr ≡ true
    → in_force (resumed (asks_of true (wrote wr))) wr.leave ≡ with_result wr.leave wr.entry.reg_arg3
marked_exit wr h = rw h

unmarked_entry :
    (wr : Write) → is_marked wr ≡ false → in_force (asks_of true (wrote wr)) wr.entry ≡ wr.entry
unmarked_entry wr h = rw h

unmarked_exit :
    (wr : Write)
    → is_marked wr ≡ false
    → in_force (resumed (asks_of true (wrote wr))) wr.leave ≡ wr.leave
unmarked_exit wr h = rw h

module _ (p : Program) (forgets : ForgetsLength p) where
  -- The state behind a nullified write is that behind a whole one.
  same_state :
      (s : p.State) (wr : Write)
      → p.Calls s wr.entry
      → wr.entry.reg_syscall ≡ sys_write
      → is_marked wr ≡ true
      → Performs (record (wr.entry) { reg_arg3 = 0 }) wr.leave
      → p.resume s (with_result wr.leave wr.entry.reg_arg3)
        ≡ p.resume s (with_result wr.entry wr.entry.reg_arg3)
  same_state s wr c sys m h =
      ap (λ (r : Regs). p.resume s (with_result r wr.entry.reg_arg3)) h.result_only
      ∙ forgets s wr.entry wr.entry.reg_arg3 0 c sys m

  -- What a step of the one run gives for the other.
  abbrev Both : p.State → p.State → Write → List Event → List Piece → List Piece → Regs → Type 0
  Both s t wr es ps own sent =
      Untraced p s (wrote wr ∷ es) (put (piece_of (wrote wr)) ps) t
      × AreEmpty (kernel_piece wr sent wr.leave own)

  at_marked :
      (s t : p.State) (wr : Write) (es : List Event) (ps own : List Piece) (sent back : Regs)
      → p.Calls s wr.entry
      → wr.entry.reg_syscall ≡ sys_write
      → is_marked wr ≡ true
      → sent ≡ record (wr.entry) { reg_arg3 = 0 }
      → back ≡ with_result wr.leave wr.entry.reg_arg3
      → Performs sent wr.leave
      → Untraced p (p.resume s back) es ps t
      → AreEmpty own
      → Both s t wr es ps own sent
  at_marked s t wr es ps own sent back c sys m e k h u a =
      let h' : Performs (record (wr.entry) { reg_arg3 = 0 }) wr.leave =
        subst (λ r. Performs r wr.leave) e h in
      (
        wrote_whole wr c m (
            subst (λ q. Untraced p q es ps t)
              (ap (λ r. p.resume s r) k ∙ same_state s wr c sys m h') u),
        put-AreEmpty (fd_of (as_int sent.reg_arg1)) _ own
            (no_bytes wr.mem sent.reg_arg2 wr.leave.reg_retn h'.within) a,
      )

  at_unmarked :
      (s t : p.State) (wr : Write) (es : List Event) (ps own : List Piece) (sent back : Regs)
      → p.Calls s wr.entry
      → is_marked wr ≡ false
      → sent ≡ wr.entry
      → back ≡ wr.leave
      → Performs sent wr.leave
      → Untraced p (p.resume s back) es ps t
      → AreEmpty own
      → Both s t wr es ps own sent
  at_unmarked s t wr es ps own sent back c m e k h u a =
      let none_here = unmarked_none (as_int wr.entry.reg_arg1) m in
      (
        subst (λ o. Untraced p s (wrote wr ∷ es) (put (piece_at o (data_of wr)) ps) t)
            (sym none_here)
            (wrote_other wr c m (subst (λ r. Performs r wr.leave) e h)
              (subst (λ r. Untraced p (p.resume s r) es ps t) k u)),
        subst (λ (r : Regs). AreEmpty (kernel_piece wr r wr.leave own)) (sym e)
            (subst
              (λ o.
                AreEmpty
                  (put (piece_at o (bytes_at wr.mem wr.entry.reg_arg2 wr.leave.reg_retn)) own))
              (sym none_here) a),
      )

  at_either :
      (s t : p.State) (wr : Write) (es : List Event) (ps own : List Piece)
      → p.Calls s wr.entry
      → wr.entry.reg_syscall ≡ sys_write
      → Performs (in_force (asks_of true (wrote wr)) wr.entry) wr.leave
      → Untraced p (p.resume s (in_force (resumed (asks_of true (wrote wr))) wr.leave)) es ps t
      → AreEmpty own
      → Both s t wr es ps own (in_force (asks_of true (wrote wr)) wr.entry)
  at_either s t wr es ps own c sys h u a = elim (Bool-cases (is_marked wr)) [
    | inl m ↦ at_marked s t wr es ps own _ _ c sys m (marked_entry wr m) (marked_exit wr m) h u a
    | inr m ↦ at_unmarked s t wr es ps own _ _ c m (unmarked_entry wr m) (unmarked_exit wr m) h u a
  ]

  -- The run under the requests of errmark is one of the program on its own.
  pub Follows-Untraced :
      {s t : p.State} {es : List Event} {own : List Piece}
      → Follows p true s es own t
      → AreEvents es
      → Untraced p s es (pieces es) t × AreEmpty own
  Follows-Untraced (at_end s) ev = (ended s, tt)
  Follows-Untraced (at_last entry c) ev = (ends_by entry c, tt)
  Follows-Untraced (at_call entry leave c f) (_, (_, ev)) =
      let (u, e) = Follows-Untraced f ev in (made_call entry leave c u, e)
  Follows-Untraced (at_write {s} {t} {es} {ps} wr c h f) ((sys, _, _), ev) =
      let (u, e) = Follows-Untraced f ev in at_either s t wr es (pieces es) ps c sys h u e

  -- Under errmark, a program goes through the states that it goes through on its own: where its
  -- stops are one behind execve(2), two at each system call, and perhaps one at a last call that
  -- does not return, with no signal to the program, where it makes its calls under the requests of
  -- errmark, and where the kernel leaves all registers but the result of a write as they were, and
  -- a write of n bytes returns at most n, there is a run of the program without errmark with the
  -- same system calls and the same end, in which each write to 1 or 2 is performed whole, and
  -- writes the data that errmark shows; the kernel itself writes nothing to 1 and 2; and errmark
  -- returns the status that ends the run, or 0 where a GETREGS meets no process (as where the
  -- program has exited with 0), with just the requests that the program ran under made by
  -- `guard_ptrace` (and, in the latter case, that GETREGS), the transcript of that data shown, then
  -- the end mark of the last run twice more (once in the latter case), and the errors copied.
  -- Behind a write to 1 or 2 the program does not look at the register of the length; --nullify is
  -- set, its writes are readable, no messages are asked for, malloc gives blocks of the size asked
  -- for, and a status that ends the run is no stop by SIGTRAP or SIGCHLD.
  pub run_parent-Untraced :
      (w : World)
      → IsQuiet w
      → Allocates w.libc
      → w.cmd.nullify ≡ true
      → (pid : ℤ) (exec : Regs) → (exec.reg_syscall == sys_write) ≡ false
      → {s t : p.State} {es : List Event} {own : List Piece} → Follows p true s es own t
      → AreEvents es
      → {tail : List Stop} {status : ℕ} {more : Bytes} {asked : List Request}
      → Closes w es tail status more asked
      → (junk : Locals)
      → Untraced p s es (pieces es) t
        × AreEmpty own
        × Returns (run_parent pid (stops_of (called exec ∷ es) ++ tail) junk w) (λ rc w'.
          ((rc ≡ status) × Leaves w es more w')
          × (w'.requests ≡ (w.requests ++ asks true (called exec ∷ es)) ++ asked))
  run_parent-Untraced w q m n pid exec x {es = es} f ev c junk =
      let (u, a) = Follows-Untraced f ev in
      (u, a, run_parent-Closes w q m n pid exec es (x, ev) c junk)
