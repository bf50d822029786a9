-- ===== src/Marks.antt =====
-- src/liberrmark/mark-write.c: the marks, and the writes that bracket each run of output of one
-- descriptor with them. Parsing of a --mark option is in Marks/Specs.
pub mod Specs
pub mod Parsing
pub mod Parsed
pub mod Transcript
pub mod Reader
pub mod Apart
pub mod Both
pub mod Skips
use errmark.Prelude.{
  Bool, false, ℕ, Option, none, some, ◌&&◌, ◌||◌, not, ℤ, pos, eq_ℤ, minus_one, Bytes, ◌==◌, ◌^◌,
  ◌-◌, if◌then◌else◌,
}
use errmark.Stdio.{write, fflush_stdout}
use errmark.World.{World, on_io}

-- A mark that is not NULL is written behind all that stdout's buffer holds.
unfoldable pub write_mark : ℕ → Option Bytes → World → World
unfolding write fflush_stdout
write_mark fd none w = w
write_mark fd (some mark) w = on_io (λ io. write fd mark (fflush_stdout io)) w

unfoldable pub write_start_stdout : World → World
unfolding write_mark
write_start_stdout w = write_mark 1 w.marks.start1 w

unfoldable pub write_end_stdout : World → World
unfolding write_mark
write_end_stdout w = write_mark 1 w.marks.end1 w

unfoldable pub write_start_stderr : World → World
unfolding write_mark
write_start_stderr w = write_mark 2 w.marks.start2 w

unfoldable pub write_end_stderr : World → World
unfolding write_mark
write_end_stderr w = write_mark 2 w.marks.end2 w

unfoldable pub switch_from_fd : ℤ → World → World
unfolding write_end_stdout write_end_stderr
switch_from_fd fd w =
    let w' = if eq_ℤ fd (pos 1) then write_end_stdout w else w in
    if eq_ℤ fd (pos 2) then write_end_stderr w' else w'

unfoldable pub switch_to_fd : ℤ → World → World
unfolding write_start_stdout write_start_stderr
switch_to_fd fd w =
    let w' = if eq_ℤ fd (pos 1) then write_start_stdout w else w in
    if eq_ℤ fd (pos 2) then write_start_stderr w' else w'

-- (size_t)(-1)
abbrev pub size_max : ℕ
size_max = 2 ^ 64 - 1

abbrev pub set_cur_fd : ℤ → World → World
set_cur_fd fd w = record w { marks = record (w.marks) { cur_fd = fd } }

-- The two tests of `before_write`; NULL is the address 0.
unfoldable pub needs_switch : ℤ → ℕ → ℕ → ℤ → Bool
needs_switch fd buf len cur_fd =
    if buf == 0 || len == size_max
    then false
    else (eq_ℤ fd (pos 1) || eq_ℤ fd (pos 2)) && not (eq_ℤ fd cur_fd)

unfoldable pub before_write : ℤ → ℕ → ℕ → World → World
before_write fd buf len w =
    if needs_switch fd buf len w.marks.cur_fd
    then set_cur_fd fd (switch_to_fd fd (switch_from_fd w.marks.cur_fd w))
    else w

-- Every path of `after_write` returns without an effect.
unfoldable pub after_write : ℤ → ℕ → ℕ → World → World
after_write fd buf len w =
    if not (eq_ℤ fd (pos 1) || eq_ℤ fd (pos 2))
    then w
    else if buf == 0 || len == size_max
    then w
    else w

unfoldable pub mark_open : World → World
mark_open w = set_cur_fd minus_one w

unfoldable pub mark_close : World → World
unfolding switch_from_fd
mark_close w = switch_from_fd w.marks.cur_fd w
