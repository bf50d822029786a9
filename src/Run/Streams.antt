-- ===== src/Run/Streams.antt =====
-- The operations of the loop that change the streams only.
use errmark.Prelude.{
  ℕ, ℤ, Option, none, some, Bool, Bytes, ◌++◌, ◌≡◌, refl, eq_ℤ, pos, length, drop, ◌&&◌, ◌||◌, ◌==◌,
}
pub use errmark.World.OnlyIo.{OnlyIo, OnlyIo-refl, OnlyIo-io, OnlyIo-trans, OnlyIo-if}
use errmark.World.{eprint, ret, World, on_io, print_stderr}
use errmark.Stdio.{Stream, write, fflush_stdout, fwrite, fwrite_stdout, fwrite_copy, fwrite_trace}
use errmark.World.Keeps.{
  Allowed, Meets, Meets-bind, Meets-either, Keeps, Keeps-bind, Keeps-any, anything,
}
use errmark.Marks.{
  size_max, write_start_stdout, write_start_stderr, write_end_stdout, write_end_stderr, write_mark,
  switch_from_fd, switch_to_fd, after_write,
}
use errmark.Guard.{trace}
use errmark.Cscript.Errors.{eexplain_err, guard_malloc, allocated}
use errmark.Pmem.{Peek, pmem_copy, pmem_fwrite}
use errmark.Writes.{debug_say, debug_write, pass_on, copy_to_both, copy_to_stdout, Locals}

write_mark-OnlyIo : (fd : ℕ) (mark : Option Bytes) (w : World) → OnlyIo w (write_mark fd mark w)
unfolding write_mark
write_mark-OnlyIo fd none w = OnlyIo-refl w
write_mark-OnlyIo fd (some mark) w = OnlyIo-io (λ io. write fd mark (fflush_stdout io)) w

pub switch_from-OnlyIo : (fd : ℤ) (w : World) → OnlyIo w (switch_from_fd fd w)
unfolding switch_from_fd write_end_stdout write_end_stderr
switch_from-OnlyIo fd w =
    let first = OnlyIo-if (eq_ℤ fd (pos 1)) (write_mark-OnlyIo 1 w.marks.end1 w) (OnlyIo-refl w) in
    OnlyIo-if (eq_ℤ fd (pos 2)) (OnlyIo-trans first (write_mark-OnlyIo 2 _ _)) first

pub switch_to-OnlyIo : (fd : ℤ) (w : World) → OnlyIo w (switch_to_fd fd w)
unfolding switch_to_fd write_start_stdout write_start_stderr
switch_to-OnlyIo fd w =
    let first =
      OnlyIo-if (eq_ℤ fd (pos 1)) (write_mark-OnlyIo 1 w.marks.start1 w) (OnlyIo-refl w) in
    OnlyIo-if (eq_ℤ fd (pos 2)) (OnlyIo-trans first (write_mark-OnlyIo 2 _ _)) first

pub after_write-OnlyIo : (fd : ℤ) (buf len : ℕ) (w : World) → OnlyIo w (after_write fd buf len w)
unfolding after_write
after_write-OnlyIo fd buf len w =
    OnlyIo-if _ (OnlyIo-refl w)
      (OnlyIo-if (buf == 0 || len == size_max) (OnlyIo-refl w) (OnlyIo-refl w))

pub trace-OnlyIo : (text : Bytes) (w : World) → OnlyIo w (trace text w)
unfolding trace
trace-OnlyIo text w = OnlyIo-if w.cmd.trace_fbt (OnlyIo-io (fwrite_trace text) w) (OnlyIo-refl w)

pub debug_say-OnlyIo : (b : Bool) (text : Bytes) (w : World) → OnlyIo w (debug_say b text w)
unfolding debug_say print_stderr
debug_say-OnlyIo b text w = OnlyIo-if b (OnlyIo-io (fwrite Stream.stderr text) w) (OnlyIo-refl w)

pub debug_write-OnlyIo : (l : Locals) (w : World) → OnlyIo w (debug_write l w)
unfolding debug_write
debug_write-OnlyIo l w =
    OnlyIo-trans (debug_say-OnlyIo w.debug _ w)
      (OnlyIo-trans (debug_say-OnlyIo w.debug _ _) (debug_say-OnlyIo w.debug _ _))

allocated-Meets :
    (a : Allowed) (n : ℕ) (mem : Option Bytes) (w : World)
    → (mem ≡ none → Meets a (allocated n none w) (λ _. OnlyIo w))
    → Meets a (allocated n mem w) (λ _. OnlyIo w)
unfolding allocated
allocated-Meets a n (some mem) w unserved = OnlyIo-refl w
allocated-Meets a n none w unserved = unserved refl

-- The data of a write, where malloc may fail if the program may end as it then does.
pub pass_on-Meets :
    (a : Allowed) (peek : ℕ → Peek) (fd : ℤ) (addr len : ℕ) (w : World)
    → (w.libc.malloc len ≡ none → Meets a (allocated len none w) (λ _. OnlyIo w))
    → Meets a (pass_on peek fd addr len w) (λ _. OnlyIo w)
unfolding pass_on copy_to_both copy_to_stdout guard_malloc
pass_on-Meets a peek fd addr len w unserved =
    Meets-either a (eq_ℤ fd (pos 2) && w.cmd.copy_fh) (copy_to_both peek addr len w)
      (ret tt (copy_to_stdout peek addr len w)) (λ _. OnlyIo w)
      (Meets-bind a (λ _. OnlyIo w) (λ _. OnlyIo w) (allocated len (w.libc.malloc len) w) _
        (allocated-Meets a len (w.libc.malloc len) w unserved)
        λ ebuf v h. OnlyIo-trans h (both (pmem_copy peek addr len).out ebuf v))
      (OnlyIo-io (λ io. (pmem_fwrite peek addr len io).1) w)
  where
    both :
        (out ebuf : Bytes) (v : World)
        → let held = out ++ drop (length out) ebuf in
          OnlyIo v (on_io (fwrite_copy held) (on_io (fwrite_stdout held) v))
    both out ebuf v = record { same = refl }

-- Where nothing is asked of how the program ends, malloc may fail.
pub unserved-OnlyIo : (n : ℕ) (w : World) → Keeps (allocated n none w) (λ _. OnlyIo w)
unfolding allocated
unserved-OnlyIo n w =
    Keeps-bind (λ _ _. Unit {0}) (λ _. OnlyIo w) (eprint _ w) _ (Keeps-any _)
      λ _ v _.
        Keeps-bind (λ _ _. Unit {0}) (λ _. OnlyIo w) (eexplain_err v.libc.malloc_errno v) _
          (Keeps-any _) λ _ _ _. tt

pub pass_on-OnlyIo :
    (peek : ℕ → Peek) (fd : ℤ) (addr len : ℕ) (w : World)
    → Keeps (pass_on peek fd addr len w) (λ _. OnlyIo w)
pass_on-OnlyIo peek fd addr len w =
    pass_on-Meets anything peek fd addr len w (λ _. unserved-OnlyIo len w)
