-- ===== src/Run/Rounds.antt =====
-- The rounds of the loop over the stops of a script.
use errmark.Prelude.{
  ℕ, ◌≡◌, refl, sym, ap, subst, Option, none, some, List, ◌∷◌, Bytes, pos, ◌==◌, if◌then◌else◌,
}
use errmark.World.{Outcome, World, Regs, Request, pure}
use errmark.World.Returns.{Returns-on, Returns, Returns-bind, Returns-then, Returns-else}
use errmark.Marks.Transcript.{Piece}
use errmark.Pmem.{Peek}
use errmark.Guard.{guard_ptrace}
use errmark.Run.{Round, next, broke, rounds, proceed, resume, examine, round}
use errmark.Writes.{Stop, Locals, sys_write, write_enter, write_leave, write_stop}
use errmark.Run.Shows.{Setup, View, Shows}
use errmark.Run.Steps.{ptrace_succeeds}
use errmark.Run.Script.{Write, wrote, called, stop_with, no_peek, IsEventOf, piece_by}
use errmark.Run.Weave.{Passes, after, live, debug_off, enter_Shows, leave_Shows}

-- The result of a round that the loop goes on after.
abbrev pub Goes : Round → (Locals → Type 0) → Type 0
Goes (next l) P = P l
Goes (broke status) P = ⊥

module _ (s : Setup) where
  -- A stop at a write, in either direction.
  stop_Shows :
      (stop : Stop) (l : Locals) (k : ℕ) (v v' : View) (w : World)
      → Shows s v w
      → Returns
          ((if l.toggle == 0 then write_enter stop l.regs else write_leave stop l) w)
          (λ l' w'. (l'.toggle ≡ k) × Shows s v' w')
      → Returns (write_stop stop l w) (λ l' w'. (l'.toggle ≡ k) × Shows s v' w')
  unfolding write_stop
  stop_Shows stop l k v v' w h e =
      Returns-bind (λ l'. λ w'. (l'.toggle ≡ k) × Shows s v' w') _ _ _
        (subst
          (λ u.
            Returns ((if l.toggle == 0 then write_enter stop l.regs else write_leave stop l) u)
              (λ l' w'. (l'.toggle ≡ k) × Shows s v' w'))
          (sym (debug_off w.debug _ w h.base.no_debug)) e)
        λ l' w' (q, h').
          (q, subst (Shows s v') (sym (debug_off w'.cmd.debug _ w' h'.base.no_cmd_debug)) h')

  resume-Shows :
      (regs : Regs) (peek : ℕ → Peek) (l : Locals) (k : ℕ) (v : View) (w : World)
      → Returns
          ((if l.regs.reg_syscall == sys_write then write_stop (stop_with regs peek) l else pure l)
            w)
          (λ l' w'. (l'.toggle ≡ k) × Shows s v w')
      → Returns
          (resume (stop_with regs peek) l w)
          (λ r w'. Goes r (λ l'. l'.toggle ≡ k) × Shows s (live v) w')
  unfolding resume
  resume-Shows regs peek l k v w e =
      Returns-bind (λ l'. λ w'. (l'.toggle ≡ k) × Shows s v w') _ _ _ e
        λ l' w' (q, h).
          Returns-bind (λ rc. λ w''. (rc ≡ pos 0) × Shows s (live v) w'') _
            (guard_ptrace Request.syscall none w') _ (ptrace_succeeds Request.syscall h)
            λ _ w'' (_, h'). (q, h')

  -- A round at a stop by SIGTRAP, up to the registers that it fetches.
  round-Shows :
      (regs : Regs) (peek : ℕ → Peek) (l : Locals) (k : ℕ) (v v' : View) (w : World)
      → Shows s v w
      → ((w' : World)
          → Shows s (live v) w'
          → Returns
              (resume (stop_with regs peek) (record l { regs = regs }) w')
              (λ r w''. Goes r (λ l'. l'.toggle ≡ k) × Shows s v' w''))
      → Returns
          (round (stop_with regs peek) l w)
          (λ r w'. Goes r (λ l'. l'.toggle ≡ k) × Shows s v' w')
  unfolding round examine
  round-Shows regs peek l k v v' w h go =
      Returns-bind (λ rc. λ w'. (rc ≡ pos 0) × Shows s (live v) w') _
        (guard_ptrace Request.getregs none w) _ (ptrace_succeeds Request.getregs h)
        λ rc w' (zeroed, h'). rw zeroed (go w' h')

pub live-after : (s : Setup) (p : Option Piece) (v : View) → live (after s p v) ≡ after s p v
live-after s none v = refl
live-after s (some p) v = refl

-- The loop goes on with `toggle` at `k` and the view `v`.
abbrev pub GoesOn : Setup → ℕ → View → Round → World → Type 0
GoesOn s k v r w = Goes r (λ l. l.toggle ≡ k) × Shows s v w

module _ {s : Setup} where
  pub enter_round :
      (text : Write → Bytes) (wr : Write) (l : Locals) (v : View) (w : World)
      → IsEventOf (Passes s text) (wrote wr)
      → l.toggle ≡ 0
      → Shows s v w
      → Returns
          (round (stop_with wr.entry wr.peek) l w)
          (GoesOn s 1 (after s (piece_by text (wrote wr)) v))
  enter_round text wr l v w ev zeroed h =
      let stop = stop_with wr.entry wr.peek in
      let l' : Locals = record l { regs = wr.entry } in
      let v' = after s (piece_by text (wrote wr)) v in
      round-Shows s wr.entry wr.peek l 1 v v' w h λ w' h'.
        subst (λ u. Returns (resume stop l' w') (GoesOn s 1 u))
          (live-after s (piece_by text (wrote wr)) v)
          (resume-Shows s wr.entry wr.peek l' 1 v' w' (
            Returns-then _ _ (write_stop stop l') (pure l') w' (ap (λ n. n == sys_write) ev.0) (
              stop_Shows s stop l' 1 (live v) v' w' h' (
                Returns-then _ _ (write_enter stop wr.entry) (write_leave stop l') w'
                  (ap (λ n. n == 0) zeroed) (enter_Shows text wr ev v w' h')))))

  pub leave_round :
      (regs : Regs) (l : Locals) (v : View) (w : World)
      → regs.reg_syscall ≡ sys_write
      → l.toggle ≡ 1
      → Shows s v w
      → Returns (round (stop_with regs no_peek) l w) (GoesOn s 0 (live v))
  leave_round regs l v w ev one h =
      let stop = stop_with regs no_peek in
      let l' : Locals = record l { regs = regs } in
      round-Shows s regs no_peek l 0 v (live v) w h λ w' h'.
        resume-Shows s regs no_peek l' 0 (live v) w' (
          Returns-then _ _ (write_stop stop l') (pure l') w' (ap (λ n. n == sys_write) ev) (
            stop_Shows s stop l' 0 (live v) (live v) w' h' (
              Returns-else _ _ (write_enter stop regs) (write_leave stop l') w'
                (ap (λ n. n == 0) one) (leave_Shows regs l' h'))))

  pub call_round :
      (text : Write → Bytes) (regs : Regs) (l : Locals) (v : View) (w : World)
      → IsEventOf (Passes s text) (called regs)
      → l.toggle ≡ 0
      → Shows s v w
      → Returns (round (stop_with regs no_peek) l w) (GoesOn s 0 (live v))
  call_round text regs l v w ev zeroed h =
      let l' : Locals = record l { regs = regs } in
      round-Shows s regs no_peek l 0 v (live v) w h λ w' h'.
        resume-Shows s regs no_peek l' 0 (live v) w'
          (Returns-else _ _ (write_stop (stop_with regs no_peek) l') (pure l') w' ev (zeroed, h'))

  after_round :
      (stops : List Stop) (k : ℕ) (v : View) (T : Outcome ℕ → Type 0) (r : Round) (w : World)
      → GoesOn s k v r w
      → ((l : Locals) (u : World) → l.toggle ≡ k → Shows s v u → T (rounds stops l u))
      → T (proceed (λ l. rounds stops l) r w)
  after_round stops k v T (next l) w (q, h) go = go l w q h
  after_round stops k v T (broke status) w (q, h) go = absurd q

  pub rounds_next :
      (stop : Stop) (stops : List Stop) (l : Locals) (k : ℕ) (v : View) (w : World)
      (T : Outcome ℕ → Type 0)
      → Returns (round stop l w) (GoesOn s k v)
      → ((l' : Locals) (u : World) → l'.toggle ≡ k → Shows s v u → T (rounds stops l' u))
      → T (rounds (stop ∷ stops) l w)
  unfolding rounds
  rounds_next stop stops l k v w T e go =
      Returns-on (GoesOn s k v) T (round stop l w) _ e λ r w' g. after_round stops k v T r w' g go
