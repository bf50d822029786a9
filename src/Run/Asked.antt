-- ===== src/Run/Asked.antt =====
-- The requests that the tracee is sent, and what leaves them alone.
use errmark.Prelude.{ap, ℕ, ℤ, Bool, true, false, ◌≡◌, refl, ◌∙◌, minus_one, ◌==◌, if◌then◌else◌}
use errmark.World.{World, on_io, on_cmd}
use errmark.Stdio.{Io}
use errmark.Run.Streams.{OnlyIo, switch_from-OnlyIo, switch_to-OnlyIo}
use errmark.Marks.{set_cur_fd, before_write, mark_open, mark_close}
use errmark.Guard.{close_marks}
use errmark.Writes.{open_marks}

-- No request has been sent on the way from `w` to `w'`, and the options are the same.
pub record Still (w w' : World) : Type 0 where
  pub requests_are : w'.requests ≡ w.requests
  pub nullify_is : w'.cmd.nullify ≡ w.cmd.nullify
  pub verbose_is : w'.cmd.verbose ≡ w.cmd.verbose

pub Still-refl : (w : World) → Still w w
Still-refl w = record { requests_are = refl; nullify_is = refl; verbose_is = refl }

pub Still-io : (f : Io → Io) (w : World) → Still w (on_io f w)
Still-io f w = record { requests_are = refl; nullify_is = refl; verbose_is = refl }

set_cur-Still : (fd : ℤ) (w : World) → Still w (set_cur_fd fd w)
set_cur-Still fd w = record { requests_are = refl; nullify_is = refl; verbose_is = refl }

opened-Still : (w : World) → Still w (on_cmd (λ c. record c { mark_state = 1 }) w)
opened-Still w = record { requests_are = refl; nullify_is = refl; verbose_is = refl }

pub Still-trans : {u v w : World} → Still u v → Still v w → Still u w
Still-trans h k = record {
  requests_are = k.requests_are ∙ h.requests_are;
  nullify_is = k.nullify_is ∙ h.nullify_is;
  verbose_is = k.verbose_is ∙ h.verbose_is;
}

pub Still-if : (b : Bool) {w x y : World} → Still w x → Still w y → Still w (if b then x else y)
Still-if true h k = h
Still-if false h k = k

-- What changes the streams only.
pub OnlyIo-Still : {w w' : World} → OnlyIo w w' → Still w w'
OnlyIo-Still h = record {
  requests_are = ap (λ (x : World). x.requests) h.same;
  nullify_is = ap (λ (x : World). x.cmd.nullify) h.same;
  verbose_is = ap (λ (x : World). x.cmd.verbose) h.same;
}

pub before_write-Still : (fd : ℤ) (buf len : ℕ) (w : World) → Still w (before_write fd buf len w)
unfolding before_write
before_write-Still fd buf len w =
    Still-if _
      (Still-trans
        (Still-trans (OnlyIo-Still (switch_from-OnlyIo w.marks.cur_fd w))
          (OnlyIo-Still (switch_to-OnlyIo fd _)))
        (set_cur-Still fd _))
      (Still-refl w)

pub open_marks-Still : (w : World) → Still w (open_marks w)
unfolding open_marks mark_open
open_marks-Still w =
    Still-if (w.cmd.mark_state == 0) (Still-trans (set_cur-Still minus_one w) (opened-Still _))
      (Still-refl w)

pub close_marks-Still : (w : World) → Still w (close_marks w)
unfolding close_marks mark_close
close_marks-Still w =
    Still-if (w.cmd.mark_state == 0) (Still-refl w)
      (OnlyIo-Still (switch_from-OnlyIo w.marks.cur_fd w))
