-- ===== src/Run/Requests.antt =====
-- What the loop asks ptrace(2) for: the registers that a traced write runs with, and returns with.
use errmark.Prelude.{
  ℕ, ℤ, pos, none, Bool, true, false, List, [], ◌∷◌, ◌++◌, append-nil, ◌≡◌, refl, subst, ◌∙◌, ap,
  ◌&&◌, codes, if◌then◌else◌, arith,
}
use errmark.World.{World, Regs, Request, M, bind, pure, on_cmd}
use errmark.World.Keeps.{Keeps, Keeps-bind}
use errmark.Pmem.{Peek}
use errmark.Guard.{guard_ptrace, after_ptrace, trace, ask}
use errmark.Writes.{
  Locals, at_entry, as_int, marked_fd, debug_write, nullified, write_marked, write_enter,
  write_leave, pass_on,
}
use errmark.Run.Script.{stop_with}
use errmark.Run.Streams.{
  OnlyIo, OnlyIo-trans, OnlyIo-if, OnlyIo-refl, trace-OnlyIo, after_write-OnlyIo,
  debug_write-OnlyIo, pass_on-OnlyIo,
}
use errmark.Run.Asked.{Still, Still-trans, OnlyIo-Still, before_write-Still, open_marks-Still}

-- The requests made so far, and the options.
pub record Asked (q : List Request) (b : Bool) (w : World) : Type 0 where
  pub requests_are : w.requests ≡ q
  pub nullify_is : w.cmd.nullify ≡ b
  pub no_verbose : w.cmd.verbose ≡ false

pub Still-Asked :
    {q : List Request} {b : Bool} {w w' : World} → Still w w' → Asked q b w → Asked q b w'
Still-Asked h a = record {
  requests_are = h.requests_are ∙ a.requests_are;
  nullify_is = h.nullify_is ∙ a.nullify_is;
  no_verbose = h.verbose_is ∙ a.no_verbose;
}

-- The registers that the system call gets, and those it returns with.
abbrev pub regs_in : Bool → Regs → Regs
regs_in nullify entry = if nullify then record entry { reg_arg3 = 0 } else entry

abbrev pub regs_out : Bool → Regs → ℕ → Regs
regs_out nullify leave wlen = if nullify then record leave { reg_retn = wlen } else leave

pub ask-Asked :
    (request : Request) {q : List Request} {b : Bool} {w : World}
    → Asked q b w
    → Asked (q ++ request ∷ []) b (ask request w)
ask-Asked request a = record {
  requests_are = ap (λ (r : List Request). r ++ request ∷ []) a.requests_are;
  nullify_is = a.nullify_is;
  no_verbose = a.no_verbose;
}

set_exited-Still : (w : World) → Still w (on_cmd (λ c. record c { child_exited = true }) w)
set_exited-Still w = record { requests_are = refl; nullify_is = refl; verbose_is = refl }

pub guard_ptrace-Asked :
    (request : Request) {q : List Request} {b : Bool} {w : World}
    → Asked q b w
    → Keeps (guard_ptrace request none w) (λ rc w'. (rc ≡ pos 0) × Asked (q ++ request ∷ []) b w')
unfolding guard_ptrace after_ptrace
guard_ptrace-Asked request {w = w} a = (
  refl,
  Still-Asked (Still-trans (OnlyIo-Still (trace-OnlyIo _ _)) (set_exited-Still _))
      (ask-Asked request (Still-Asked (OnlyIo-Still (trace-OnlyIo _ w)) a)),
)

-- what is asked for at the entry of a write, and at its exit
abbrev pub at_enter : Bool → Bool → Regs → List Request
at_enter b marked entry = if marked then Request.setregs (regs_in b entry) ∷ [] else []

abbrev pub at_leave : Bool → Bool → Regs → ℕ → Request
at_leave b marked leave wlen = Request.setregs (if marked then regs_out b leave wlen else leave)

-- The variables between the two stops of a write.
pub record Between (wfd : ℤ) (wlen : ℕ) (l : Locals) : Type 0 where
  pub toggle_is : l.toggle ≡ 1
  pub wfd_is : l.wfd ≡ wfd
  pub wlen_is : l.wlen ≡ wlen

-- A call, and then something that leaves the requests alone.
module _ {b : Bool} where
  pub then-Asked {ℓ} :
      {A : Type ℓ} (P : A → World → Type 0) (request : Request) {q : List Request} {w : World}
      (f : ℤ → M A)
      → Asked q b w
      → ((rc : ℤ) (w' : World) → rc ≡ pos 0 → Asked (q ++ request ∷ []) b w' → Keeps (f rc w') P)
      → Keeps (bind (guard_ptrace request none w) f) P
  then-Asked P request f a k =
      Keeps-bind _ P _ f (guard_ptrace-Asked request a) λ rc w' (e, a'). k rc w' e a'

  nullified-regs_in : (c : Bool) (regs : Regs) → c ≡ b → nullified c regs ≡ regs_in b regs
  nullified-regs_in true regs h = ground arith
  nullified-regs_in false regs h = ground arith

  write_marked-Asked :
      (regs : Regs) (peek : ℕ → Peek) (l : Locals) (q : List Request) (w : World)
      → l.toggle ≡ 1
      → Asked q b w
      → Keeps
          (write_marked (stop_with regs peek) l w)
          (λ l' w'. Between l.wfd l.wlen l' × Asked (q ++ at_enter b true l.regs) b w')
  unfolding write_marked
  write_marked-Asked regs peek l q w one a =
      let a' =
        Still-Asked (Still-trans (open_marks-Still w) (before_write-Still l.wfd l.waddr l.wlen _))
          a in
      then-Asked _ _ _ a' λ rc u _ asked.
        Keeps-bind (λ _. OnlyIo (trace (codes "> write\n") u)) _
          (pass_on peek l.wfd l.waddr l.wlen _) _ (pass_on-OnlyIo peek l.wfd l.waddr l.wlen _)
          λ _ w' h. (
            record { toggle_is = one; wfd_is = refl; wlen_is = refl },
            subst (λ r. Asked (q ++ Request.setregs r ∷ []) b w')
                (nullified-regs_in _ l.regs a'.nullify_is)
                (Still-Asked (OnlyIo-Still (OnlyIo-trans (trace-OnlyIo (codes "> write\n") u) h))
                  asked),
          )

  enter_if :
      (m : Bool) (regs : Regs) (peek : ℕ → Peek) (l : Locals) (q : List Request) (w : World)
      → l.toggle ≡ 1
      → Asked q b w
      → Keeps
          ((if m then write_marked (stop_with regs peek) l else pure l) w)
          (λ l' w'. Between l.wfd l.wlen l' × Asked (q ++ at_enter b m l.regs) b w')
  enter_if true regs peek l q w one a = write_marked-Asked regs peek l q w one a
  enter_if false regs peek l q w one a =
      (record { toggle_is = one; wfd_is = refl; wlen_is = refl }, rw append-nil a)

  pub write_enter-Asked :
      (regs : Regs) (peek : ℕ → Peek) (q : List Request) (w : World)
      → Asked q b w
      → Keeps (write_enter (stop_with regs peek) regs w) (λ l' w'.
        Between (as_int regs.reg_arg1) regs.reg_arg3 l'
        × Asked (q ++ at_enter b (marked_fd (as_int regs.reg_arg1)) regs) b w')
  unfolding write_enter
  write_enter-Asked regs peek q w a =
      let l = at_entry regs (as_int regs.reg_arg1) in
      enter_if (marked_fd l.wfd) regs peek l q (debug_write l w) refl
        (Still-Asked (OnlyIo-Still (debug_write-OnlyIo l w)) a)

  left :
      (m c : Bool) (regs : Regs) (n : ℕ)
      → c ≡ b
      → (if m && c then record regs { reg_retn = n } else regs)
        ≡ (if m then regs_out b regs n else regs)
  left true c regs n h = ground arith
  left false c regs n h = refl

  pub write_leave-Asked :
      (regs : Regs) (peek : ℕ → Peek) (l : Locals) (q : List Request) (w : World)
      → Asked q b w
      → Keeps (write_leave (stop_with regs peek) l w) (λ l' w'.
        (l'.toggle ≡ 0) × Asked (q ++ at_leave b (marked_fd l.wfd) l.regs l.wlen ∷ []) b w')
  unfolding write_leave
  write_leave-Asked regs peek l q w a =
      then-Asked _ _ _
        (Still-Asked
          (OnlyIo-Still (
            OnlyIo-if (marked_fd l.wfd) (after_write-OnlyIo l.wfd l.waddr l.wlen w)
              (OnlyIo-refl w)))
          a)
        λ rc u _ asked. (
          refl,
          subst (λ r. Asked (q ++ Request.setregs r ∷ []) b (trace (codes "< write\n") u))
              (left (marked_fd l.wfd) w.cmd.nullify l.regs l.wlen a.nullify_is)
              (Still-Asked (OnlyIo-Still (trace-OnlyIo (codes "< write\n") u)) asked),
        )
