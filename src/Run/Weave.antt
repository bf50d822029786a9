-- ===== src/Run/Weave.antt =====
-- One round of the loop for each stop of a script: what it shows.
use errmark.Prelude.{
  ℕ, ◌+◌, ◌-◌, ◌^◌, ◌<◌, ◌≡◌, refl, sym, ap, subst, ◌∙◌, Bool, Option, none, some, true, false, not,
  ◌||◌, ◌++◌, append_assoc, ℤ, pos, Bytes, ◌==◌, if◌then◌else◌, arith, codes,
}
use errmark.World.{World, Regs, pure}
use errmark.World.Returns.{Returns, Returns-bind, Returns-map}
use errmark.Marks.{after_write, size_max}
use errmark.Marks.Transcript.{Fd, fd1, fd2, Piece, switch_text}
use errmark.Pmem.{pmem_copy}
use errmark.Pmem.Memory.{length-bytes_at}
use errmark.Pmem.Exact.{pmem_copy-exact}
use errmark.Guard.{guard_ptrace, trace}
use errmark.Writes.{
  Stop, Locals, marked_fd, as_int, debug_say, debug_write, pass_on, write_marked, at_entry,
  write_enter, write_leave,
}
use errmark.Run.Shows.{Setup, View, fd_number, Shows}
use errmark.Run.Switch.{switch-Now}
use errmark.Run.Steps.{trace-Shows, ptrace_succeeds}
use errmark.Run.PassOn.{Allocates, copied_part, pass_on-passed, passed_of-whole}
use errmark.Run.Script.{
  Write, wrote, stop_with, no_peek, data_of, IsReadable, IsEventOf, fd_of, piece_by, piece_at,
}

-- The view after an event.
abbrev pub after : Setup → Option Piece → View → View
after s none v = record v { child_exited = true }
after s (some p) v = record {
  cur = some p.fd;
  child_exited = true;
  text = v.text ++ (switch_text s.marks v.cur p.fd ++ p.text);
  copy = v.copy ++ copied_part s.copying p.fd p.text;
}

pub debug_off : (b : Bool) (text : Bytes) (w : World) → b ≡ false → debug_say b text w ≡ w
unfolding debug_say
debug_off b text w h = ap (λ (c : Bool). debug_say c text w) h

debug_write_off : (l : Locals) (w : World) → w.debug ≡ false → debug_write l w ≡ w
unfolding debug_write
debug_write_off l w h =
    debug_off w.debug _ _ h ∙ (debug_off w.debug _ _ h ∙ debug_off w.debug _ w h)

if_same {ℓ} : {A : Type ℓ} (b : Bool) (x : A) → (if b then x else x) ≡ x
if_same true x = refl
if_same false x = refl

after_write_none : (fd : ℤ) (buf len : ℕ) (w : World) → after_write fd buf len w ≡ w
unfolding after_write
after_write_none fd buf len w =
    ap (λ (v : World). if not (marked_fd fd) then w else v)
      (if_same (buf == 0 || len == size_max) w)
    ∙ if_same (not (marked_fd fd)) w

-- At a write to a marked descriptor, what is passed on of its data is `text`.
pub record Passes (s : Setup) (text : Write → Bytes) (wr : Write) : Type 0 where
  pub not_null : 0 < wr.entry.reg_arg2
  pub small : wr.entry.reg_arg3 < size_max
  pub passed :
      (fd : Fd) (v : View) (w : World)
      → fd_of (as_int wr.entry.reg_arg1) ≡ some fd
      → Shows s v w
      → Returns (pass_on wr.peek (fd_number fd) wr.entry.reg_arg2 wr.entry.reg_arg3 w) (λ _.
        Shows s (record v {
          text = v.text ++ text wr;
          copy = v.copy ++ copied_part s.copying fd (text wr);
        }))

whole_copy :
    (wr : Write)
    → IsReadable wr
    → pmem_copy wr.peek wr.entry.reg_arg2 wr.entry.reg_arg3
      ≡ record { rv = pos wr.entry.reg_arg3; out = data_of wr }
whole_copy wr r =
    pmem_copy-exact r.traced wr.entry.reg_arg2 wr.entry.reg_arg3 r.in_space r.region r.window

pub IsReadable-Passes :
    {s : Setup} → Allocates s.libc → (wr : Write) → IsReadable wr → Passes s data_of wr
IsReadable-Passes {s} m wr r = record {
  not_null = r.not_null;
  small = less (wr.entry.reg_arg2) (wr.entry.reg_arg3) r.in_space r.not_null;
  passed = λ fd v w e h.
      subst
        (λ t. Returns (pass_on wr.peek (fd_number fd) wr.entry.reg_arg2 wr.entry.reg_arg3 w) (λ _.
          Shows s (record v { text = v.text ++ t; copy = v.copy ++ copied_part s.copying fd t })))
        (passed_of-whole s.libc s.copying wr.peek fd _ _ (data_of wr) m (whole_copy wr r)
          (length-bytes_at wr.mem _ _))
        (pass_on-passed m wr.peek wr.entry.reg_arg2 wr.entry.reg_arg3 fd h);
}
  where
    less : (a n : ℕ) → a + n < 2 ^ 64 → 0 < a → n < 2 ^ 64 - 1
    less a n h k = omega arith

fd_of-some : (x : ℤ) (fd : Fd) → fd_of x ≡ some fd → x ≡ fd_number fd
fd_of-some x fd h = ground arith

fd_of-none : (x : ℤ) → fd_of x ≡ none → marked_fd x ≡ false
fd_of-none x h = ground arith

marked_number : (fd : Fd) → marked_fd (fd_number fd) ≡ true
marked_number fd1 = refl
marked_number fd2 = refl

abbrev pub live : View → View
live v = record v { child_exited = true }

module _ {s : Setup} (text : Write → Bytes) where
  -- The entry stop of a write to a marked descriptor.
  marked_Shows :
      (wr : Write) (fd : Fd)
      → fd_of (as_int wr.entry.reg_arg1) ≡ some fd
      → Passes s text wr
      → {v : View} {w : World} → Shows s v w
      → Returns
          (write_marked (stop_with wr.entry wr.peek) (at_entry wr.entry (fd_number fd)) w)
          (λ l w'.
            (l.toggle ≡ 1)
            × (l.wfd ≡ fd_number fd)
            × Shows s (after s (some (record { fd = fd; text = text wr })) v) w')
  unfolding write_marked
  marked_Shows wr fd e r {v} {w} h =
      let now =
        switch-Now s v.child_exited v.text v.copy fd wr.entry.reg_arg2 wr.entry.reg_arg3 r.not_null
          r.small v.cur w h.base h.cur_is in
      Returns-bind (λ rc. λ w'. (rc ≡ pos 0) × Shows s (switched v) w') _ (guard_ptrace _ none _) _
        (ptrace_succeeds _ now)
        λ rc w' (zeroed, h').
          Returns-bind (λ _. Shows s (after s (some piece) v)) _
            (pass_on wr.peek (fd_number fd) wr.entry.reg_arg2 wr.entry.reg_arg3
              (trace (codes "> write\n") w'))
            _ (rw (← append_assoc) (r.passed fd (switched v) _ e (trace-Shows _ h')))
            λ _ w'' h''. (refl, refl, h'')
    where
      piece : Piece
      piece = record { fd = fd; text = text wr }

      switched : View → View
      switched u = record u {
        cur = some fd;
        child_exited = true;
        text = u.text ++ switch_text s.marks u.cur fd;
      }

  -- The entry stop of any write.
  pub enter_Shows :
      (wr : Write)
      → IsEventOf (Passes s text) (wrote wr)
      → (v : View) (w : World) → Shows s (live v) w
      → Returns
          (write_enter (stop_with wr.entry wr.peek) wr.entry w)
          (λ l w'. (l.toggle ≡ 1) × Shows s (after s (piece_by text (wrote wr)) v) w')
  unfolding write_enter
  enter_Shows wr (_, _, r) v w h =
      subst
        (λ u.
          Returns
            ((if marked_fd x
                then write_marked stop (at_entry wr.entry x)
                else pure (at_entry wr.entry x))
              u)
            (λ l w'. (l.toggle ≡ 1) × Shows s (after s (piece_by text (wrote wr)) v) w'))
        (sym (debug_write_off (at_entry wr.entry x) w h.base.no_debug)) (go (fd_of x) refl)
    where
      x : ℤ
      x = as_int wr.entry.reg_arg1

      stop : Stop
      stop = stop_with wr.entry wr.peek

      go :
          (o : Option Fd)
          → fd_of x ≡ o
          → Returns
              ((if marked_fd x
                  then write_marked stop (at_entry wr.entry x)
                  else pure (at_entry wr.entry x))
                w)
              (λ l w'. (l.toggle ≡ 1) × Shows s (after s (piece_at (fd_of x) (text wr)) v) w')
      go none e = rw (e, fd_of-none x e) (refl, h)
      go (some fd) e =
          let seen : marked_fd x ≡ true = ap marked_fd (fd_of-some x fd e) ∙ marked_number fd in
          rw (e, seen, fd_of-some x fd e)
            (Returns-map
              (λ l w'.
                (l.toggle ≡ 1)
                × (l.wfd ≡ fd_number fd)
                × Shows s (after s (some (record { fd = fd; text = text wr })) v) w')
              _ (write_marked stop (at_entry wr.entry (fd_number fd)) w)
              (marked_Shows wr fd e (r seen) h) λ l w' (one, _, h'). (one, h'))

module _ {s : Setup} where
  -- The exit stop of any write.
  pub leave_Shows :
      (regs : Regs) (l : Locals) {v : View} {w : World}
      → Shows s v w
      → Returns
          (write_leave (stop_with regs no_peek) l w)
          (λ l' w'. (l'.toggle ≡ 0) × Shows s (live v) w')
  unfolding write_leave
  leave_Shows regs l {v} {w} h =
      Returns-bind (λ rc. λ w'. (rc ≡ pos 0) × Shows s (live v) w') _ (guard_ptrace _ none _) _
        (ptrace_succeeds _ (subst (Shows s v) (sym nothing) h))
        λ _ w' (_, h'). (refl, trace-Shows _ h')
    where
      nothing : (if marked_fd l.wfd then after_write l.wfd l.waddr l.wlen w else w) ≡ w
      nothing =
          ap (λ (u : World). if marked_fd l.wfd then u else w)
            (after_write_none l.wfd l.waddr l.wlen w)
          ∙ if_same (marked_fd l.wfd) w
