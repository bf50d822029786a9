-- ===== src/Run/Closing.antt =====
-- The end of a run: the end mark that each call of `mark_close` writes.
use errmark.Prelude.{
  and_false, ℕ, ◌≡◌, refl, sym, ap, subst, ◌∙◌, Bool, Option, none, some, true, false, [], ◌∷◌,
  ◌++◌, append-nil, ℤ, Bytes, ◌==◌, if◌then◌else◌,
}
use errmark.World.{World, Cmd, Marks, M, pure, when}
use errmark.World.Returns.{Returns, Returns-bind, Returns-then}
use errmark.Marks.{write_mark, switch_from_fd, mark_close}
use errmark.Marks.Transcript.{Fd, fd1, fd2, end_mark}
use errmark.Guard.{close_marks}
use errmark.Run.{broke, ends, end_round, finish, round, rounds, proceed, examine}
use errmark.Writes.{Stop, Locals}
use errmark.Run.Shows.{Setup, View, fd_number, CurIs, Shows, switch_from-Base}
use errmark.Run.Switch.{switch_from-cmd}

write_mark-marks :
    (fd : ℕ) (mark : Option Bytes) (w : World) → (write_mark fd mark w).marks ≡ w.marks
unfolding write_mark
write_mark-marks fd none w = refl
write_mark-marks fd (some mark) w = refl

switch_from-marks : (fd : Fd) (w : World) → (switch_from_fd (fd_number fd) w).marks ≡ w.marks
unfolding switch_from_fd
switch_from-marks fd1 w = write_mark-marks 1 w.marks.end1 w
switch_from-marks fd2 w = write_mark-marks 2 w.marks.end2 w

close_never : (w : World) → w.cmd.mark_state ≡ 0 → close_marks w ≡ w
unfolding close_marks
close_never w h = ap (λ (k : ℕ). if k == 0 then w else mark_close w) h

close_fd :
    (fd : ℤ) (w : World)
    → w.cmd.mark_state ≡ 1
    → w.marks.cur_fd ≡ fd
    → close_marks w ≡ switch_from_fd fd w
unfolding close_marks mark_close
close_fd fd w one here =
    ap (λ (k : ℕ). if k == 0 then w else mark_close w) one ∙ ap (λ (k : ℤ). switch_from_fd k w) here

-- The view after a call of `mark_close`.
abbrev pub closed : Setup → View → View
closed s v = record v { text = v.text ++ end_mark s.marks v.cur }

module _ (s : Setup) where
  pub close-Shows : (v : View) (w : World) → Shows s v w → Shows s (closed s v) (close_marks w)
  close-Shows v w h = go v.cur h.cur_is
    where
      after_close : Option Fd → Type 0
      after_close cur =
          Shows s (record v { cur = cur; text = v.text ++ end_mark s.marks cur }) (close_marks w)

      go : (cur : Option Fd) → CurIs cur w → after_close cur
      go none at = rw (close_never w at, append-nil) (record { base = h.base; cur_is = at })
      go (some fd) (one, here) = rw (close_fd (fd_number fd) w one here) (record {
        base = switch_from-Base s v.child_exited v.text v.copy fd w h.base;
        cur_is = (
          ap (λ (k : Cmd). k.mark_state) (switch_from-cmd fd w) ∙ one,
          ap (λ (k : Marks). k.cur_fd) (switch_from-marks fd w) ∙ here,
        );
      })

  pub not_when :
      (b : Bool) (m : M (Unit {0})) (P : World → Type 0) (w : World)
      → b ≡ false
      → P w
      → Returns (when b m w) (λ _. P)
  not_when b m P w h p = subst (λ c. Returns (when c m w) (λ _. P)) (sym h) p

  pub end_round-Shows :
      (status : ℕ) (v : View) (w : World)
      → Shows s v w
      → Returns (end_round status w) (λ r w'. (r ≡ broke status) × Shows s (closed s v) w')
  unfolding end_round
  end_round-Shows status v w h =
      let c = close-Shows v w h in
      Returns-bind (λ _. Shows s (closed s v)) _ _ _
        (not_when _ _ (Shows s (closed s v)) (close_marks w) c.base.no_verbose c)
        λ _ w' h'. (refl, h')

  pub finish-Shows :
      (status : ℕ) (v : View) (w : World)
      → Shows s v w
      → Returns (finish status w) (λ rc w'. (rc ≡ status) × Shows s (closed s v) w')
  unfolding finish
  finish-Shows status v w h =
      let c = close-Shows v w h in
      Returns-bind (λ _. Shows s (closed s v)) (λ rc w'. (rc ≡ status) × Shows s (closed s v) w') _
        (λ _. pure status)
        (not_when _ _ (Shows s (closed s v)) (close_marks w) (and_false _ _ c.base.no_verbose) c)
        λ _ w' h'. (refl, h')

  -- The loop ends at a status that ends it: the run is closed twice.
  pub rounds_end :
      (stop : Stop) (l : Locals) (v : View) (w : World)
      → ends stop.status ≡ true
      → Shows s v w
      → Returns
          (rounds (stop ∷ []) l w)
          (λ rc w'. (rc ≡ stop.status) × Shows s (closed s (closed s v)) w')
  unfolding rounds round
  rounds_end stop l v w e h =
      Returns-bind (λ r. λ w'. (r ≡ broke stop.status) × Shows s (closed s v) w') _ _ _
        (Returns-then _ _ (end_round stop.status) (examine stop l) w e
          (end_round-Shows stop.status v w h))
        λ r w' (q, h').
          subst
            (λ k.
              Returns (proceed (λ l'. rounds [] l') k w')
                (λ rc w''. (rc ≡ stop.status) × Shows s (closed s (closed s v)) w''))
            (sym q) (finish-Shows stop.status (closed s v) w' h')
