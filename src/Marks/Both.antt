-- ===== src/Marks/Both.antt =====
-- A reader of marks for both descriptors.
use errmark.Prelude.{
  ℕ, zero, true, Option, none, some, List, [], ◌∷◌, ◌++◌, Bytes, ◌≡◌, ◌⊎◌, inl, inr, refl, subst,
}
use errmark.World.{Marks}
use errmark.Marks.Transcript.{Fd, fd1, fd2, start_of, end_of}
use errmark.Marks.Reader.{Reads}
use errmark.Marks.Skips.{
  Skip, Skips, clash, clash-left, clash-right, told, told-tag, told-Skips, lacks_starts, at_head,
  later,
}

-- The marks of what is written to 1, and of what is written to 2.
pub record BothMarks : Type 0 where
  pub start1 : Bytes
  pub end1 : Bytes
  pub start2 : Bytes
  pub end2 : Bytes

-- An end mark leads out of all runs.
abbrev pub skips_both : BothMarks → List Skip
skips_both b =
    record { mark = b.start1; to = some fd1 }
    ∷ record { mark = b.start2; to = some fd2 }
    ∷ record { mark = b.end1; to = none }
    ∷ record { mark = b.end2; to = none }
    ∷ []

-- A reader that knows these marks: it skips them, and takes what stands behind a start mark for its
-- descriptor.
abbrev pub told_both : BothMarks → Option Fd → Bytes → List (Fd × ℕ)
told_both b = told (skips_both b) zero

-- No two of the marks begin with one another, but the two end marks may be the same.
pub record AreApart (b : BothMarks) : Type 0 where
  pub starts : clash b.start1 b.start2 ≡ true
  pub start1_end1 : clash b.start1 b.end1 ≡ true
  pub start2_end1 : clash b.start2 b.end1 ≡ true
  pub start1_end2 : clash b.start1 b.end2 ≡ true
  pub start2_end2 : clash b.start2 b.end2 ≡ true
  pub ends : (b.end1 ≡ b.end2) ⊎ (clash b.end1 b.end2 ≡ true)

-- Both descriptors are marked, with these marks.
pub record MarkedBoth (b : BothMarks) (m : Marks) : Type 0 where
  pub start1_is : m.start1 ≡ some b.start1
  pub end1_is : m.end1 ≡ some b.end1
  pub start2_is : m.start2 ≡ some b.start2
  pub end2_is : m.end2 ≡ some b.end2

module _ (b : BothMarks) (apart : AreApart b) where
  end1-Skips : Skips b.end1 none (skips_both b)
  end1-Skips = later apart.start1_end1 (later apart.start2_end1 at_head)

  end2-Skips : Skips b.end2 none (skips_both b)
  end2-Skips = elim apart.ends [
    | inl same ↦ subst (λ e. Skips e none (skips_both b)) same end1-Skips
    | inr c ↦ later apart.start1_end2 (later apart.start2_end2 (later c at_head))
  ]

  told-start :
      {m : Marks}
      → MarkedBoth b m
      → (fd : Fd) (rest : Bytes)
      → told_both b none (start_of m fd ++ rest) ≡ told_both b (some fd) rest
  told-start h fd1 rest = rw h.start1_is (
      told-Skips (skips_both b) b.start1 (some fd1) none rest
        (clash-left b.start1 b.start2 apart.starts) at_head)
  told-start h fd2 rest = rw h.start2_is (
      told-Skips (skips_both b) b.start2 (some fd2) none rest
        (clash-right b.start1 b.start2 apart.starts) (later apart.starts at_head))

  told-end :
      {m : Marks}
      → MarkedBoth b m
      → (cur : Option Fd) (fd : Fd) (rest : Bytes)
      → told_both b cur (end_of m fd ++ rest) ≡ told_both b none rest
  told-end h cur fd1 rest = rw h.end1_is (
      told-Skips (skips_both b) b.end1 none cur rest (clash-right b.start1 b.end1 apart.start1_end1)
        end1-Skips)
  told-end h cur fd2 rest = rw h.end2_is (
      told-Skips (skips_both b) b.end2 none cur rest (clash-right b.start1 b.end2 apart.start1_end2)
        end2-Skips)

  pub told_both-Reads :
      {m : Marks} → MarkedBoth b m → Reads (lacks_starts (skips_both b)) (told_both b) m
  told_both-Reads h = record {
    at_nothing = refl;
    at_text = told-tag (skips_both b);
    at_start = told-start h;
    at_end = λ fd. told-end h (some fd) fd;
    at_end_again = told-end h none;
  }
