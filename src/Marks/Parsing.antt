-- ===== src/Marks/Parsing.antt =====
-- What `parse_mark_specs` makes of the argument of --mark.
use errmark.Prelude.{
  ℕ, Bool-cases, inl, inr, true, false, Option, some, [], ◌∷◌, ◌++◌, Bytes, lacks, length,
  take-length, take-all, ◌==◌, ◌≡◌, ◌≢◌, refl, arith,
}
use errmark.World.{World, Libc, ret}
use errmark.Marks.Specs.{
  null_if_empty, strndup, until_sep, end_slice, parse_marks, parse_mark_specs, set_marks1,
  set_marks2,
}
use errmark.Marks.Transcript.{Fd, fd1, fd2}
use errmark.Marks.Skips.{is_empty}

abbrev pub fd_digit : Fd → ℕ
fd_digit fd1 = b'1'
fd_digit fd2 = b'2'

-- An empty mark is what strndup(NULL, 0) gives.
abbrev pub mark_of : Libc → Bytes → Option Bytes
mark_of libc [] = libc.dup_null
mark_of libc (c ∷ s) = some (c ∷ s)

pub mark_of-some : (libc : Libc) (s : Bytes) → is_empty s ≡ false → mark_of libc s ≡ some s
mark_of-some libc [] h = cc
mark_of-some libc (c ∷ s) h = refl

abbrev pub set_marks : Fd → Option Bytes → Option Bytes → World → World
set_marks fd1 m_start m_end = set_marks1 m_start m_end
set_marks fd2 m_start m_end = set_marks2 m_start m_end

pub until_sep-lacks :
    (sep : ℕ) (before rest : Bytes)
    → lacks sep before ≡ true
    → until_sep sep (before ++ sep ∷ rest) ≡ (before, sep ∷ rest)
unfolding until_sep
until_sep-lacks sep [] rest h = ground arith
until_sep-lacks sep (c ∷ s) rest h = elim (Bool-cases (c == sep)) [
  | inl e ↦ ground arith
  | inr ne ↦ ground (arith, until_sep-lacks sep s rest)
]

pub until_sep-end :
    (sep : ℕ) (text : Bytes) → lacks sep text ≡ true → until_sep sep text ≡ (text, [])
unfolding until_sep
until_sep-end sep [] h = refl
until_sep-end sep (c ∷ s) h = elim (Bool-cases (c == sep)) [
  | inl e ↦ ground arith
  | inr ne ↦ ground (arith, until_sep-end sep s)
]

start-mark_of :
    (libc : Libc) (before rest : Bytes)
    → strndup libc (null_if_empty (before ++ rest) (length before)) ≡ mark_of libc before
start-mark_of libc [] rest = refl
start-mark_of libc (c ∷ s) rest = ground (arith, take-length (c ∷ s) rest)

whole-mark_of :
    (libc : Libc) (text : Bytes)
    → strndup libc (null_if_empty text (length text)) ≡ mark_of libc text
whole-mark_of libc [] = refl
whole-mark_of libc (c ∷ s) = ground (arith, take-all (c ∷ s))

end-mark_of :
    (libc : Libc) (sep : ℕ) (rest : Bytes)
    → sep ≢ 0
    → strndup libc (end_slice sep (sep ∷ rest)) ≡ mark_of libc rest
unfolding end_slice
end-mark_of libc sep rest h = ground (arith, whole-mark_of libc rest)

no_end : (libc : Libc) (sep : ℕ) → sep ≢ 0 → strndup libc (end_slice sep []) ≡ libc.dup_null
unfolding end_slice
no_end libc sep h = ground arith

marks_set :
    (fd : Fd) (sep : ℕ) (s : Bytes) (w : World)
    → w.debug ≡ false
    → parse_mark_specs (fd_digit fd ∷ sep ∷ s) w
      ≡ ret true (
          set_marks fd
            (strndup w.libc (null_if_empty s (length (until_sep sep s).0)))
            (strndup w.libc (end_slice sep (until_sep sep s).1))
            w)
unfolding parse_mark_specs parse_marks
marks_set fd1 sep s w h = rw h
marks_set fd2 sep s w h = rw h

-- An argument made of the descriptor, a separator, a start mark without the separator in it, the
-- separator and an end mark, which may have the separator in it, is accepted, and sets the two
-- marks of the descriptor to just these strings (an empty one to what strndup(NULL, 0) gives),
-- where debugging is off.
pub parse_mark_specs-set_marks :
    (fd : Fd) (sep : ℕ) (m_start m_end : Bytes) (w : World)
    → sep ≢ 0
    → lacks sep m_start ≡ true
    → w.debug ≡ false
    → parse_mark_specs (fd_digit fd ∷ sep ∷ (m_start ++ sep ∷ m_end)) w
      ≡ ret true (set_marks fd (mark_of w.libc m_start) (mark_of w.libc m_end) w)
parse_mark_specs-set_marks fd sep m_start m_end w z l d = rw (
  marks_set fd sep (m_start ++ sep ∷ m_end) w d,
  until_sep-lacks sep m_start m_end l,
  start-mark_of w.libc m_start (sep ∷ m_end),
  end-mark_of w.libc sep m_end z,
)

-- Without a second separator, the rest of the argument is the start mark, and the end mark is what
-- strndup(NULL, 0) gives, where debugging is off.
pub parse_mark_specs-start_only :
    (fd : Fd) (sep : ℕ) (m_start : Bytes) (w : World)
    → sep ≢ 0
    → lacks sep m_start ≡ true
    → w.debug ≡ false
    → parse_mark_specs (fd_digit fd ∷ sep ∷ m_start) w
      ≡ ret true (set_marks fd (mark_of w.libc m_start) w.libc.dup_null w)
parse_mark_specs-start_only fd sep m_start w z l d = rw (
  marks_set fd sep m_start w d,
  until_sep-end sep m_start l,
  whole-mark_of w.libc m_start,
  no_end w.libc sep z,
)
