-- ===== src/Marks/Apart.antt =====
-- What the marks are for: a reader of the terminal can tell the two descriptors apart, here by
-- marks of stderr.
use errmark.Prelude.{ℕ, zero, Bool, true, none, some, Option, List, [], ◌∷◌, Bytes, ◌≡◌, refl}
use errmark.World.{Marks}
use errmark.Marks.Transcript.{Fd, fd1, fd2, Piece}
use errmark.Marks.Reader.{all_pass, side, Reads, ReadsStderr-Reads}
use errmark.Marks.Skips.{
  Skip, clash, clash-left, clash-right, told, told-tag, told-Skips, lacks_starts, at_head, later,
}

-- The end mark leads back to stdout.
abbrev pub skips_stderr : Bytes → Bytes → List Skip
skips_stderr s e = record { mark = s; to = some fd2 } ∷ record { mark = e; to = some fd1 } ∷ []

-- A reader that knows the marks of stderr, `s` and `e`: it skips them, and takes what stands
-- between them for stderr, and all else for stdout.
abbrev pub told_apart : Bytes → Bytes → Option Fd → Bytes → List (Fd × ℕ)
told_apart s e cur = told (skips_stderr s e) zero (some (side cur))

-- The first byte of neither mark is written by the program.
abbrev pub all_lack : Bytes → Bytes → List Piece → Bool
all_lack s e = all_pass (lacks_starts (skips_stderr s e))

-- Only stderr is marked, with these marks, of which neither begins with the other.
pub record MarkedBy (s e : Bytes) (m : Marks) : Type 0 where
  pub no_start1 : m.start1 ≡ none
  pub no_end1 : m.end1 ≡ none
  pub start2_is : m.start2 ≡ some s
  pub end2_is : m.end2 ≡ some e
  pub differ : clash s e ≡ true

pub told_apart-Reads :
    (s e : Bytes) {m : Marks}
    → MarkedBy s e m
    → Reads (lacks_starts (skips_stderr s e)) (told_apart s e) m
told_apart-Reads s e h =
    let skips = skips_stderr s e in
    ReadsStderr-Reads (record {
      no_start1 = h.no_start1;
      no_end1 = h.no_end1;
      nothing = refl;
      plain_text = told-tag skips;
      starting = λ rest.
          rw h.start2_is
            (told-Skips skips s (some fd2) (some fd1) rest (clash-left s e h.differ) at_head);
      ending = λ fd rest. rw h.end2_is (
          told-Skips skips e (some fd1) (some fd) rest (clash-right s e h.differ)
            (later h.differ at_head));
    })
