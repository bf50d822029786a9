-- ===== src/Guard/Chunks.antt =====
-- What closing the marks sends out.
use errmark.Prelude.{
  ℕ, ℤ, pos, eq_ℤ, eq_ℤ→eq, Option, none, some, Bool-cases, ◌==◌, List, [], ◌∷◌, ◌++◌, append-nil,
  append_assoc, Bytes, ◌≡◌, refl, sym, inl, inr, if◌then◌else◌,
}
use errmark.Stdio.{Chunk, write, fflush_stdout}
use errmark.World.{World, Marks}
use errmark.Marks.{mark_close, switch_from_fd, write_end_stdout, write_end_stderr, write_mark}
use errmark.Guard.{close_marks}
use errmark.Run.Streams.{OnlyIo, OnlyIo-if, OnlyIo-refl, switch_from-OnlyIo}

-- An end mark that is not NULL is written behind what stdout's buffer holds.
abbrev pub mark_chunks : Bytes → ℕ → Option Bytes → List Chunk
mark_chunks pending fd none = []
mark_chunks pending fd (some mark) =
    record { to = 1; text = pending } ∷ record { to = fd; text = mark } ∷ []

-- What closes the marks, if they are open.
abbrev pub cur_chunks : Bytes → Marks → ℤ → List Chunk
cur_chunks pending marks fd =
    if eq_ℤ fd (pos 1)
    then mark_chunks pending 1 marks.end1
    else if eq_ℤ fd (pos 2)
    then mark_chunks pending 2 marks.end2
    else []

abbrev pub chunks_at : Bytes → ℕ → Marks → List Chunk
chunks_at pending mark_state marks =
    if mark_state == 0 then [] else cur_chunks pending marks marks.cur_fd

abbrev pub end_chunks : World → List Chunk
end_chunks w = chunks_at w.io.pending w.cmd.mark_state w.marks

pub mark-sent :
    (fd : ℕ) (mark : Option Bytes) (w : World)
    → (write_mark fd mark w).io.sent ≡ w.io.sent ++ mark_chunks w.io.pending fd mark
unfolding write_mark write fflush_stdout
mark-sent fd none w = sym (append-nil w.io.sent)
mark-sent fd (some mark) w = simp append_assoc

pub switch_from-sent :
    (fd : ℤ) (w : World)
    → (switch_from_fd fd w).io.sent ≡ w.io.sent ++ cur_chunks w.io.pending w.marks fd
unfolding switch_from_fd write_end_stdout write_end_stderr
switch_from-sent fd w = elim (Bool-cases (eq_ℤ fd (pos 1))) [
  | inl one ↦ rw (eq_ℤ→eq fd (pos 1) one) (mark-sent 1 w.marks.end1 w)
  | inr not_one ↦ elim (Bool-cases (eq_ℤ fd (pos 2))) [
    | inl two ↦ rw (eq_ℤ→eq fd (pos 2) two) (mark-sent 2 w.marks.end2 w)
    | inr neither ↦ rw (not_one, neither, append-nil) refl
  ]
]

pub close-sent : (w : World) → (close_marks w).io.sent ≡ w.io.sent ++ end_chunks w
unfolding close_marks mark_close
close-sent w = elim (Bool-cases (w.cmd.mark_state == 0)) [
  | inl never ↦ rw (never, append-nil) refl
  | inr opened ↦ rw opened (switch_from-sent w.marks.cur_fd w)
]

pub close-OnlyIo : (w : World) → OnlyIo w (close_marks w)
unfolding close_marks mark_close
close-OnlyIo w =
    OnlyIo-if (w.cmd.mark_state == 0) (OnlyIo-refl w) (switch_from-OnlyIo w.marks.cur_fd w)
