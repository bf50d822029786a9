-- ===== src/Run/Switch.antt =====
-- The switch to the descriptor of a write: `mark_open` at the first one, and `before_write`.
use errmark.Prelude.{
  ℕ, ◌<◌, ◌≡◌, inl, inr, refl, sym, ap, ◌∙◌, Bool, Bool-cases, Option, none, some, true, false,
  ◌++◌, append-nil, append_assoc, ℤ, minus_one, Bytes, ◌==◌, if◌then◌else◌, arith,
}
use errmark.World.{World, Cmd, on_cmd}
use errmark.Marks.{
  write_mark, switch_from_fd, switch_to_fd, before_write, needs_switch, mark_open, set_cur_fd,
  size_max,
}
use errmark.Marks.Transcript.{Fd, fd1, fd2, same_fd, same_fd→eq, start_of, end_of, switch_text}
use errmark.Writes.{open_marks}
use errmark.Run.Shows.{
  Setup, fd_number, CurIs, Base, Shows, switch_to-Base, switch_from-Base, set_cur-Shows,
}

-- What `before_write` decides, at a marked descriptor.
switch_first :
    (fd : Fd) (buf len : ℕ)
    → 0 < buf
    → len < size_max
    → needs_switch (fd_number fd) buf len minus_one ≡ true
unfolding needs_switch
switch_first fd buf len b l = ground arith

switch_same :
    (fd cur : Fd) (buf len : ℕ)
    → same_fd fd cur ≡ true
    → needs_switch (fd_number fd) buf len (fd_number cur) ≡ false
unfolding needs_switch
switch_same fd cur buf len h = ground arith

switch_other :
    (fd cur : Fd) (buf len : ℕ)
    → 0 < buf
    → len < size_max
    → same_fd fd cur ≡ false
    → needs_switch (fd_number fd) buf len (fd_number cur) ≡ true
unfolding needs_switch
switch_other fd cur buf len b l h = ground arith

-- `mark_open`, which happens at the first marked write
opened : World → World
opened w = on_cmd (λ c. record c { mark_state = 1 }) (set_cur_fd minus_one w)

opened-Base :
    (s : Setup) (e : Bool) (t c : Bytes) (w : World) → Base s e t c w → Base s e t c (opened w)
unfolding opened
opened-Base s e t c w h = record {
  no_debug = h.no_debug;
  no_cmd_debug = h.no_cmd_debug;
  no_verbose = h.no_verbose;
  nullify_is = h.nullify_is;
  copying_is = h.copying_is;
  libc_is = h.libc_is;
  marks_are = h.marks_are;
  exited_is = h.exited_is;
  text_is = h.text_is;
  copy_is = h.copy_is;
}

write_mark-cmd : (fd : ℕ) (mark : Option Bytes) (w : World) → (write_mark fd mark w).cmd ≡ w.cmd
unfolding write_mark
write_mark-cmd fd none w = refl
write_mark-cmd fd (some mark) w = refl

switch_to-cmd : (fd : Fd) (w : World) → (switch_to_fd (fd_number fd) w).cmd ≡ w.cmd
unfolding switch_to_fd
switch_to-cmd fd1 w = write_mark-cmd 1 w.marks.start1 w
switch_to-cmd fd2 w = write_mark-cmd 2 w.marks.start2 w

pub switch_from-cmd : (fd : Fd) (w : World) → (switch_from_fd (fd_number fd) w).cmd ≡ w.cmd
unfolding switch_from_fd
switch_from-cmd fd1 w = write_mark-cmd 1 w.marks.end1 w
switch_from-cmd fd2 w = write_mark-cmd 2 w.marks.end2 w

switch_from_none : (w : World) → switch_from_fd minus_one w ≡ w
unfolding switch_from_fd
switch_from_none w = refl

before_yes :
    (fd cur : ℤ) (buf len : ℕ) (w : World)
    → w.marks.cur_fd ≡ cur
    → needs_switch fd buf len cur ≡ true
    → before_write fd buf len w ≡ set_cur_fd fd (switch_to_fd fd (switch_from_fd cur w))
unfolding before_write
before_yes fd cur buf len w here h =
    ap
      (λ (k : ℤ).
        if needs_switch fd buf len k
        then set_cur_fd fd (switch_to_fd fd (switch_from_fd k w))
        else w)
      here
    ∙ ap (λ (b : Bool). if b then set_cur_fd fd (switch_to_fd fd (switch_from_fd cur w)) else w) h

before_no :
    (fd cur : ℤ) (buf len : ℕ) (w : World)
    → w.marks.cur_fd ≡ cur
    → needs_switch fd buf len cur ≡ false
    → before_write fd buf len w ≡ w
unfolding before_write
before_no fd cur buf len w here h =
    ap
      (λ (k : ℤ).
        if needs_switch fd buf len k
        then set_cur_fd fd (switch_to_fd fd (switch_from_fd k w))
        else w)
      here
    ∙ ap (λ (b : Bool). if b then set_cur_fd fd (switch_to_fd fd (switch_from_fd cur w)) else w) h

open_marks_first : (w : World) → w.cmd.mark_state ≡ 0 → open_marks w ≡ opened w
unfolding open_marks mark_open opened
open_marks_first w h = ap (λ (k : ℕ). if k == 0 then opened w else w) h

open_marks_again : (w : World) → w.cmd.mark_state ≡ 1 → open_marks w ≡ w
unfolding open_marks mark_open opened
open_marks_again w h = ap (λ (k : ℕ). if k == 0 then opened w else w) h

module _ (s : Setup) (e : Bool) (t c : Bytes) (fd : Fd) (buf len : ℕ) (b : 0 < buf)
    (l : len < size_max) where
  -- The view after a switch to `fd`.
  abbrev Now : Bytes → World → Type 0
  Now u = Shows s (record { cur = some fd; child_exited = e; text = u; copy = c })

  first-Now :
      (w : World)
      → Base s e t c w
      → w.cmd.mark_state ≡ 0
      → Now (t ++ start_of s.marks fd) (before_write (fd_number fd) buf len (open_marks w))
  first-Now w h zeroed =
      rw
        (
          open_marks_first w zeroed,
          before_yes (fd_number fd) minus_one buf len (opened w) (unfold opened in refl)
              (switch_first fd buf len b l),
          switch_from_none,
        )
        (set_cur-Shows s e (t ++ start_of s.marks fd) c fd _
          (switch_to-Base s e t c fd (opened w) (opened-Base s e t c w h))
          (unfold opened in ap (λ (k : Cmd). k.mark_state) (switch_to-cmd fd (opened w))))

  same-Now :
      (cur : Fd) (w : World)
      → Base s e t c w
      → CurIs (some cur) w
      → same_fd fd cur ≡ true
      → Now t (before_write (fd_number fd) buf len w)
  same-Now cur w h (one, here) same =
      rw (before_no (fd_number fd) (fd_number cur) buf len w here (switch_same fd cur buf len same))
        (record { base = h; cur_is = (one, here ∙ ap fd_number (sym (same_fd→eq fd cur same))) })

  other-Now :
      (cur : Fd) (w : World)
      → Base s e t c w
      → CurIs (some cur) w
      → same_fd fd cur ≡ false
      → Now (t ++ end_of s.marks cur ++ start_of s.marks fd) (before_write (fd_number fd) buf len w)
  other-Now cur w h (one, here) other =
      rw
        (before_yes (fd_number fd) (fd_number cur) buf len w here
          (switch_other fd cur buf len b l other))
        (set_cur-Shows s e _ c fd _ (switch_to-Base s e _ c fd _ (switch_from-Base s e t c cur w h))
          (ap (λ (k : Cmd). k.mark_state) (switch_to-cmd fd _ ∙ switch_from-cmd cur w) ∙ one))

  -- `mark_open` at the first marked write, and `before_write`: the switch to the descriptor.
  pub switch-Now :
      (cur : Option Fd) (w : World)
      → Base s e t c w
      → CurIs cur w
      → Now (t ++ switch_text s.marks cur fd) (before_write (fd_number fd) buf len (open_marks w))
  switch-Now none w h at = first-Now w h at
  switch-Now (some cur) w h at = rw (open_marks_again w at.0) (elim (Bool-cases (same_fd fd cur)) [
    | inl same ↦ rw (same, append-nil) (same-Now cur w h at same)
    | inr other ↦ rw (other, ← append_assoc) (other-Now cur w h at other)
  ])
