-- ===== src/Marks/Specs.antt =====
-- `parse_mark_specs` and `setmark` of src/liberrmark/mark-write.c. A C string is the list of its
-- bytes, none of which is 0.
use errmark.Prelude.{
  ℕ, ◌-◌, Bool, true, false, Option, none, some, ◌||◌, [], ◌∷◌, ◌++◌, ℤ, pos, eq_ℤ, Bytes, codes,
  length, take, signed_decimal, ◌==◌, if◌then◌else◌,
}
use errmark.World.{World, Libc, M, ret, modify, pure, when, fprint, print_stderr, ◌>>◌}
use errmark.Cscript.Show.{fshow_str}

-- `*s`
abbrev pub char_at : Bytes → ℕ
char_at [] = 0
char_at (c ∷ s) = c

-- while (*s && *s != fsep) ++s: what is passed over, and where `s` stands then
unfoldable pub until_sep : ℕ → Bytes → Bytes × Bytes
until_sep fsep [] = ([], [])
until_sep fsep (c ∷ s) =
    let (before, rest) = until_sep fsep s in if c == fsep then ([], c ∷ s) else (c ∷ before, rest)

-- A pointer into the argument, or NULL, and a length.
pub record Slice : Type 0 where
  pub ptr : Option Bytes
  pub len : ℕ

-- `if (len == 0) ptr = NULL`
abbrev pub null_if_empty : Bytes → ℕ → Slice
null_if_empty text len = record { ptr = (if len == 0 then none else some text); len = len }

-- `s + 1`
abbrev pub behind : Bytes → Bytes
behind [] = []
behind (c ∷ s) = s

-- The end string begins behind the separator that `rest` stands at. The loop `while (*s)` runs to
-- the NUL, so that the test behind it is on the NUL.
unfoldable pub end_slice : ℕ → Bytes → Slice
end_slice fsep rest =
    if char_at rest == fsep
    then null_if_empty (behind rest)
        (if char_at [] == fsep then length (behind rest) - 1 else length (behind rest))
    else record { ptr = none; len = 0 }

-- strndup(ptr, len)
abbrev pub strndup : Libc → Slice → Option Bytes
strndup libc slice = elim slice.ptr [
  | none ↦ libc.dup_null
  | some text ↦ some (take slice.len text)
]

abbrev pub set_marks1 : Option Bytes → Option Bytes → World → World
set_marks1 s e w = record w { marks = record (w.marks) { start1 = s; end1 = e } }

abbrev pub set_marks2 : Option Bytes → Option Bytes → World → World
set_marks2 s e w = record w { marks = record (w.marks) { start2 = s; end2 = e } }

-- the messages under `debug`
unfoldable pub debug_marks : Bytes → Option Bytes → Bytes → Option Bytes → M (Unit {0})
debug_marks start_label s end_label e w =
    (do
      fprint w.dbgprint_fh start_label
      fshow_str w.dbgprint_fh s
      fprint w.dbgprint_fh (codes "]\n")
      fprint w.dbgprint_fh end_label
      fshow_str w.dbgprint_fh e
      fprint w.dbgprint_fh (codes "]\n"))
      w

-- From the second character of the argument on, for the descriptor `fd`.
unfoldable pub parse_marks : ℕ → Bytes → M Bool
unfolding until_sep end_slice debug_marks
parse_marks fd [] w = ret true w
parse_marks fd (fsep ∷ s) w =
    let (before, rest) = until_sep fsep s in
    let m_start = strndup w.libc (null_if_empty s (length before)) in
    let m_end = strndup w.libc (end_slice fsep rest) in
    (do
      when (fd == 1) (do
        modify (set_marks1 m_start m_end)
        when w.debug (debug_marks (codes "start1=[") m_start (codes "end1  =[") m_end))
      when (fd == 2) (do
        modify (set_marks2 m_start m_end)
        when w.debug (debug_marks (codes "start2=[") m_start (codes "end2  =[") m_end))
      pure true)
      w

unfoldable pub parse_mark_specs : Bytes → M Bool
unfolding parse_marks
parse_mark_specs [] w = ret false w
parse_mark_specs (c ∷ s) w =
    if c == b'1' || c == b'2' then parse_marks (c - b'0') s w else ret false w

unfoldable pub setmark : ℤ → Bytes → Bytes → M Bool
setmark fd m_start m_end w =
    if eq_ℤ fd (pos 1)
    then ret true (set_marks1 (some m_start) (some m_end) w)
    else if eq_ℤ fd (pos 2)
    then ret true (set_marks2 (some m_start) (some m_end) w)
    else ret false (
        print_stderr
          (codes "fd=" ++ (signed_decimal fd ++ codes " -- only fd 1 or 2 are supported.\n")) w)
