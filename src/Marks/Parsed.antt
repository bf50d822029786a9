-- ===== src/Marks/Parsed.antt =====
-- What `parse_mark_specs` is to do with each argument, as a relation.
use errmark.Prelude.{
  ℕ, Bool, Bool-cases, inl, inr, true, false, not, [], ◌∷◌, ◌++◌, Bytes, lacks, left_of, right_of,
  negated, ◌==◌, ◌≡◌, ◌≢◌, refl, sym, subst, arith,
}
use errmark.World.{World, ret, Outcome}
use errmark.World.Returns.{Returns}
use errmark.Marks.Specs.{parse_marks, parse_mark_specs}
use errmark.Marks.Transcript.{Fd, fd1, fd2}
use errmark.Marks.Parsing.{
  fd_digit, mark_of, set_marks, parse_mark_specs-set_marks, parse_mark_specs-start_only,
}

-- Of an argument: whether it is accepted, and the state behind it.
pub data Parses (w : World) : Bytes → Bool → World → Type 0 where
  two_marks :
      (fd : Fd) (sep : ℕ) (m_start m_end : Bytes)
      → lacks sep m_start ≡ true
      → Parses w
          (fd_digit fd ∷ sep ∷ (m_start ++ sep ∷ m_end))
          true
          (set_marks fd (mark_of w.libc m_start) (mark_of w.libc m_end) w)
  start_only :
      (fd : Fd) (sep : ℕ) (m_start : Bytes)
      → lacks sep m_start ≡ true
      → Parses w
          (fd_digit fd ∷ sep ∷ m_start)
          true
          (set_marks fd (mark_of w.libc m_start) w.libc.dup_null w)
  fd_only : (fd : Fd) → Parses w (fd_digit fd ∷ []) true w
  nothing : Parses w [] false w
  no_fd : (c : ℕ) (s : Bytes) → c ≢ b'1' → c ≢ b'2' → Parses w (c ∷ s) false w

-- A text up to the first separator, if there is one.
data Splits (sep : ℕ) : Bytes → Type 0 where
  found : (before rest : Bytes) → lacks sep before ≡ true → Splits sep (before ++ sep ∷ rest)
  not_there : {s : Bytes} → lacks sep s ≡ true → Splits sep s

is_byte : (c d : ℕ) → (c == d) ≡ true → c ≡ d
is_byte c d h = ground arith

is_other : (c d : ℕ) → (c == d) ≡ false → c ≢ d
is_other c d h = ground arith

split_more : (c sep : ℕ) (s : Bytes) → (c == sep) ≡ false → Splits sep s → Splits sep (c ∷ s)
split_more c sep _ h (found before rest l) = found (c ∷ before) rest (rw (h, l) refl)
split_more c sep _ h (not_there l) = not_there (rw (h, l) refl)

splits : (sep : ℕ) (s : Bytes) → Splits sep s
splits sep [] = not_there refl
splits sep (c ∷ s) = elim (Bool-cases (c == sep)) [
  | inl e ↦ subst (λ x. Splits sep (x ∷ s)) (sym (is_byte c sep e)) (found [] s refl)
  | inr n ↦ split_more c sep s n (splits sep s)
]

Returns-ret :
    {o : Outcome Bool} {b : Bool} {u : World} (P : Bool → World → Type 0)
    → o ≡ ret b u
    → P b u
    → Returns o P
Returns-ret P e h = subst (λ o. Returns o P) (sym e) h

split-Parses :
    (fd : Fd) (sep : ℕ) (s : Bytes) (w : World)
    → sep ≢ 0
    → w.debug ≡ false
    → Splits sep s
    → Returns (parse_mark_specs (fd_digit fd ∷ sep ∷ s) w) (Parses w (fd_digit fd ∷ sep ∷ s))
split-Parses fd sep _ w z d (found before rest l) =
    Returns-ret _ (parse_mark_specs-set_marks fd sep before rest w z l d)
      (two_marks fd sep before rest l)
split-Parses fd sep s w z d (not_there l) =
    Returns-ret _ (parse_mark_specs-start_only fd sep s w z l d) (start_only fd sep s l)

fd-Parses :
    (fd : Fd) (s : Bytes) (w : World)
    → lacks 0 s ≡ true
    → w.debug ≡ false
    → Returns (parse_mark_specs (fd_digit fd ∷ s) w) (Parses w (fd_digit fd ∷ s))
unfolding parse_mark_specs parse_marks
fd-Parses fd1 [] w z d = fd_only fd1
fd-Parses fd2 [] w z d = fd_only fd2
fd-Parses fd (sep ∷ s) w z d =
    split-Parses fd sep s w
      (is_other sep 0 (negated (sep == 0) (left_of (not (sep == 0)) (lacks 0 s) z))) d
      (splits sep s)

-- Of any C string, `parse_mark_specs` returns, and does what the relation `Parses` has for it,
-- where debugging is off: it refuses a string that does not begin with 1 or 2, and changes nothing;
-- with the descriptor alone, it accepts and changes nothing; with a separator and a text without a
-- further one, it sets the start mark of the descriptor to that text, and the end mark to what
-- strndup(NULL, 0) gives; with a second separator, it sets both marks to the texts before and
-- behind it.
pub parse_mark_specs-Parses :
    (s : Bytes) (w : World)
    → lacks 0 s ≡ true
    → w.debug ≡ false
    → Returns (parse_mark_specs s w) (Parses w s)
unfolding parse_mark_specs
parse_mark_specs-Parses [] w z d = nothing
parse_mark_specs-Parses (c ∷ s) w z d =
    let z' = right_of (not (c == 0)) (lacks 0 s) z in
    elim (Bool-cases (c == b'1')) [
      | inl e ↦
          subst (λ x. Returns (parse_mark_specs (x ∷ s) w) (Parses w (x ∷ s)))
            (sym (is_byte c b'1' e)) (fd-Parses fd1 s w z' d)
      | inr n ↦ elim (Bool-cases (c == b'2')) [
        | inl e ↦
            subst (λ x. Returns (parse_mark_specs (x ∷ s) w) (Parses w (x ∷ s)))
              (sym (is_byte c b'2' e)) (fd-Parses fd2 s w z' d)
        | inr n' ↦ rw (n, n') (no_fd c s (is_other c b'1' n) (is_other c b'2' n'))
      ]
    ]
