-- ===== src/Run/Total.antt =====
-- A run ends, whatever the kernel answers.
use errmark.Prelude.{
  ◌==◌, ℕ, ℤ, pos, Bool, true, false, not, ◌&&◌, ◌||◌, none, some, List, [], ◌∷◌, ◌≡◌, inl, refl,
  sym, ap, subst, ◌∙◌, arith,
}
use errmark.Stdio.{Stream}
use errmark.World.{World, Libc, M, pure, fprint, eprint, when, on_cmd}
use errmark.Cscript.Reported.{fshow_wait_status-OnlyIo}
use errmark.World.OnlyIo.{when-OnlyIo, OnlyIo, OnlyIo-refl, eprint-OnlyIo}
use errmark.World.Returns.{Returns}
use errmark.World.Keeps.{Allowed, Meets, Meets-bind, Meets-map, Returns-Meets}
use errmark.Guard.{close_marks}
use errmark.Guard.Chunks.{close-OnlyIo}
use errmark.Cscript.Errors.{allocated, eexplain_err, fexplain_err}
use errmark.Cscript.WaitStatus.{fshow_wait_status}
use errmark.Writes.{Stop, Locals}
use errmark.Run.{
  Round, next, broke, round, rounds, ends, finish, proceed, ptrace_cmd, run_parent, start_cmd,
  percent_s,
}
use errmark.Run.Sound.{IsSound, OnlyIo-IsSound}
use errmark.Run.Sound.Stops.{Good, GoesOn, Tolerates, stop_harms, LeftAt, round-GoesOn}

-- What is returned: the status of the first stop that ends the loop, or 0 where GETREGS fails at a
-- stop before.
pub data IsLeft : List Stop → ℕ → Type 0 where
  at_stop : {stop : Stop} {stops : List Stop} {rc : ℕ} → LeftAt stop rc → IsLeft (stop ∷ stops) rc
  later :
      {stop : Stop} {stops : List Stop} {rc : ℕ}
      → ends stop.status ≡ false
      → IsLeft stops rc
      → IsLeft (stop ∷ stops) rc

abbrev pub never_ends : List Stop → Bool
never_ends [] = true
never_ends (stop ∷ stops) = let rest = never_ends stops in not (ends stop.status) && rest

-- At a stop up to the first that ends the loop, a request fails with another errno than ESRCH (and than 0).
abbrev pub some_harm : List Stop → Bool
some_harm [] = false
some_harm (stop ∷ stops) =
    let rest = some_harm stops in stop_harms stop || not (ends stop.status) && rest

-- The ends that a run may have but for its return: exit(8), where malloc fails for some size,
-- abort(), where a request fails, and a wait, where no stop ends the loop.
abbrev pub run_ends : World → List Stop → Allowed
run_ends w stops = record {
  exits = λ code. (code ≡ 8) × ((n : ℕ) × (w.libc.malloc n ≡ none));
  aborts = some_harm stops ≡ true;
  undefines = ⊥;
  waits = never_ends stops ≡ true;
}

no_later : (b rest : Bool) → b ≡ false → rest ≡ true → (not b && rest) ≡ true
no_later b rest off h = ground arith

later_harm : (h b rest : Bool) → b ≡ false → rest ≡ true → (h || not b && rest) ≡ true
later_harm h b rest off e = ground arith

explained :
    (a : Allowed) (f : Stream) (err : ℤ) (w : World)
    → w.errprint_fh ≡ some f
    → Meets a (eexplain_err err w) (λ _ _. Unit {0})
unfolding eexplain_err fexplain_err fprint
explained a f err w e = rw e tt

-- What malloc and the stream for messages do to a run from `w0` on.
module _ (a : Allowed) (f : Stream) (w0 : World) (e : w0.errprint_fh ≡ some f)
    (starved : (n : ℕ) → w0.libc.malloc n ≡ none → a.exits 8) where
  errprint_is : {w : World} → IsSound w0 w → w.errprint_fh ≡ some f
  errprint_is h = ap (λ (x : World). x.errprint_fh) h.same ∙ e

  libc_is : {w : World} → IsSound w0 w → w.libc ≡ w0.libc
  libc_is h = ap (λ (x : World). x.libc) h.same

  unserved_exits :
      (n : ℕ) (w : World)
      → IsSound w0 w
      → w.libc.malloc n ≡ none
      → Meets a (allocated n none w) (λ _. OnlyIo w)
  unfolding allocated
  unserved_exits n w h m =
      Meets-bind a (λ _. OnlyIo w) (λ _. OnlyIo w) _ _
        (Returns-Meets a _ (eprint _ w) (eprint-OnlyIo _ w (errprint_is h)))
        λ _ u only.
          Meets-bind a (λ _ _. Unit {0}) (λ _. OnlyIo w) (eexplain_err u.libc.malloc_errno u) _
            (explained a f u.libc.malloc_errno u (errprint_is (OnlyIo-IsSound only h)))
            λ _ _ _. starved n (sym (ap (λ (k : Libc). k.malloc n) (libc_is h)) ∙ m)

  -- A message under --verbose.
  noted_if :
      (b : Bool) (m : M (Unit {0})) (w : World)
      → Returns (m w) (λ _. OnlyIo w)
      → Meets a (when b m w) (λ _. OnlyIo w)
  noted_if b m w h =
      Returns-Meets a (λ _. OnlyIo w) (when b m w) (when-OnlyIo b m w w (OnlyIo-refl w) h)

  run_Tolerates : Tolerates a w0
  run_Tolerates = record {
    unserved = unserved_exits;
    noted = λ text w h. noted_if w.cmd.verbose _ w (eprint-OnlyIo text w (errprint_is h));
  }

  finish-IsSound :
      (status : ℕ) (w : World)
      → IsSound w0 w
      → Meets a (finish status w) (λ rc w'. (rc ≡ status) × IsSound w0 w')
  unfolding finish
  finish-IsSound status w h =
      let w' = close_marks w in
      let h' = OnlyIo-IsSound (close-OnlyIo w) h in
      let said = fshow_wait_status (percent_s w'.cmd.cmd_name) status in
      let b = not (status == 0) && w'.cmd.verbose in
      Meets-bind a (λ _. OnlyIo w') (λ rc u. (rc ≡ status) × IsSound w0 u) (when b said w')
        (λ _. pure status)
        (noted_if b said w' (fshow_wait_status-OnlyIo (percent_s w'.cmd.cmd_name) status w'))
        λ _ u only. (refl, OnlyIo-IsSound only h')

  abbrev Left : List Stop → ℕ → World → Type 0
  Left stops rc w = IsLeft stops rc × IsSound w0 w

  -- Behind a round, the loop goes on, or it is left.
  proceed-Left :
      (stop : Stop) (stops : List Stop) (r : Round) (w : World)
      → ((l : Locals)
          → ends stop.status ≡ false
          → Good w0 l w
          → Meets a (rounds stops l w) (Left stops))
      → GoesOn w0 stop r w
      → Meets a (proceed (λ l. rounds stops l) r w) (Left (stop ∷ stops))
  proceed-Left stop stops (next l) w go (on, g) =
      Meets-map a (Left stops) (Left (stop ∷ stops)) (rounds stops l w) (go l on g)
        λ rc u (left, h). (later on left, h)
  proceed-Left stop stops (broke left) w go (h, q) =
      Meets-map a (λ rc u. (rc ≡ left) × IsSound w0 u) (Left (stop ∷ stops)) (finish left w)
        (finish-IsSound left w h) λ rc u (same, k). (at_stop (subst (LeftAt stop) (sym same) q), k)

  rounds-Left :
      (stops : List Stop) (l : Locals) (w : World)
      → (some_harm stops ≡ true → a.aborts)
      → (never_ends stops ≡ true → a.waits)
      → Good w0 l w
      → Meets a (rounds stops l w) (Left stops)
  unfolding rounds
  rounds-Left [] l w harm never g = never refl
  rounds-Left (stop ∷ stops) l w harm never g =
      Meets-bind a (GoesOn w0 stop) _ (round stop l w) _
        (round-GoesOn run_Tolerates stop (λ h. harm (rw h refl)) l g)
        λ r u k.
          proceed-Left stop stops r u
            (λ l' on g'.
              rounds-Left stops l' u (λ h. harm (later_harm (stop_harms stop) _ _ on h))
                (λ n. never (no_later _ _ on n)) g')
            k

-- Whatever the kernel answers at the stops, a run ends in one of these ways: it returns, and keeps
-- in `cmd->rc`, the status of the first stop that ends the loop, or 0 where GETREGS fails at a stop
-- before; it ends by abort(), only if a request fails with another errno than ESRCH (and than 0) at
-- a stop up to that one; by exit(8), only if malloc fails for some size; or it waits, only if no
-- stop ends the loop. No NULL stream is printed to, and no buffer overruns. There is a stream for messages.
pub run_parent-Ends :
    (f : Stream) (w : World)
    → w.errprint_fh ≡ some f
    → (pid : ℤ) (stops : List Stop) (junk : Locals)
    → Meets
        (run_ends w stops)
        (run_parent pid stops junk w)
        (λ rc w'. IsLeft stops rc × (w'.cmd.rc ≡ pos rc))
unfolding run_parent ptrace_cmd
run_parent-Ends f w e pid stops junk =
    let a = run_ends w stops in
    let w0 = start_cmd pid w in
    let sound : IsSound w0 w0 = record { state_is = inl refl; same = refl } in
    Meets-bind a (λ _. OnlyIo w0) _ _ _
      (noted_if a f w0 e (λ n m. (refl, (n, m))) w.cmd.verbose (eprint _) w0 (eprint-OnlyIo _ w0 e))
      λ _ u only.
        Meets-bind a (Left a f w0 e (λ n m. (refl, (n, m))) stops) _
          (rounds stops (record junk { toggle = 0 }) u) _
          (rounds-Left a f w0 e (λ n m. (refl, (n, m))) stops _ u (λ h. h) (λ n. n)
            (inl refl, OnlyIo-IsSound only sound))
          λ rc x (left, h).
            let x' = on_cmd (λ c. record c { rc = pos rc }) x in
            (left, ap (λ (y : World). y.cmd.rc) (close-OnlyIo x').same)
