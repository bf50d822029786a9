-- ===== src/Main/Apart.antt =====
-- The whole program, for a user who marks stderr.
use errmark.Prelude.{ℕ, ◌==◌, true, false, none, List, [], ◌∷◌, ◌++◌, Bytes, length, ◌≡◌, refl}
use errmark.World.{World}
use errmark.Cscript.PrintFh.{set_eprint_fh}
use errmark.Marks.Transcript.{fd2}
use errmark.Marks.Skips.{clash, clash-left, clash-right}
use errmark.Marks.Parsing.{mark_of-some}
use errmark.Marks.Apart.{told_apart, all_lack, MarkedBy, told_apart-Reads}
use errmark.Writes.{Stop}
use errmark.Run.PassOn.{Allocates}
use errmark.Run.Script.{Event, stops_of, AreEvents, pieces}
use errmark.Main.{Env, main_program}
use errmark.Main.Exit.{Exits}
use errmark.Main.Choices.{Choice, mark}
use errmark.Main.Settings.{AreTold, settings}
use errmark.Main.Read.{Over, IsRead, main_program-Reads}

-- The option for stderr, with a mark on each side.
abbrev pub mark_stderr : Bytes → Bytes → List Choice
mark_stderr s e = mark fd2 s e ∷ []

stderr-MarkedBy :
    (s e : Bytes) (env : Env) (w : World)
    → clash s e ≡ true
    → w.marks.start1 ≡ none
    → w.marks.end1 ≡ none
    → MarkedBy s e (settings (mark_stderr s e) (set_eprint_fh env.out env.err w)).marks
unfolding set_eprint_fh
stderr-MarkedBy s e env w d p q = record {
  no_start1 = p;
  no_end1 = q;
  start2_is = mark_of-some w.libc s (clash-left s e d);
  end2_is = mark_of-some w.libc e (clash-right s e d);
  differ = d;
}

-- Errmark with one --mark, for stderr, of which neither mark begins with the other, where no marks
-- are set before: who reads what it shows, skips these two marks, and takes what stands between
-- them for stderr and all else for stdout, has the bytes of the program's writes to 1 and 2, in
-- order, each with its descriptor; and the exit code is that of the program, 0 where it was killed,
-- the signal of a stop other than by SIGTRAP and SIGCHLD, 255 where it was continued, and 0 where
-- it is gone, found behind a first stop by a GETREGS that meets no process (as where it exits with
-- 0). The program does not write the first byte of either mark, its writes are readable, no
-- messages are asked for before, a copy that is asked for can be opened, malloc gives blocks of the
-- size asked for, and argv has a first word.
pub main_program-told_apart :
    (s e : Bytes) (env : Env) (argv : List Bytes) (es : List Event) (tail : List Stop) (code : ℕ)
    (w : World)
    → clash s e ≡ true
    → AreTold (mark_stderr s e) env.gots
    → w.marks.start1 ≡ none
    → w.marks.end1 ≡ none
    → w.debug ≡ false
    → w.verbose ≡ false
    → Allocates w.libc
    → (length argv == 0) ≡ false
    → env.opens ≡ true
    → AreEvents es
    → all_lack s e (pieces es) ≡ true
    → Over es tail code
    → env.stops ≡ stops_of es ++ tail
    → Exits (main_program env argv w) (λ c w'. (c ≡ code) × IsRead (told_apart s e) es w w')
main_program-told_apart s e env argv es tail code w d t p q nd nv m some_word opens ev l over
      stops =
    main_program-Reads (mark_stderr s e) env argv w es tail code
      (record {
        are_told = t;
        are_set = refl;
        no_debug = nd;
        no_verbose = nv;
        allocates = m;
        some_word = some_word;
        opens = opens;
      })
      (told_apart-Reads s e (stderr-MarkedBy s e env w d p q)) ev l over stops
