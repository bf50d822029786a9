-- ===== src/Main/Both.antt =====
-- The whole program, for a user who marks both descriptors.
use errmark.Prelude.{ℕ, ◌==◌, true, false, List, [], ◌∷◌, ◌++◌, Bytes, length, ◌≡◌, refl}
use errmark.World.{World}
use errmark.Cscript.PrintFh.{set_eprint_fh}
use errmark.Marks.Transcript.{fd1, fd2}
use errmark.Marks.Reader.{all_pass}
use errmark.Marks.Both.{BothMarks, told_both, skips_both, AreApart, MarkedBoth, told_both-Reads}
use errmark.Marks.Skips.{lacks_starts, clash-left, clash-right}
use errmark.Marks.Parsing.{mark_of-some}
use errmark.Writes.{Stop}
use errmark.Run.PassOn.{Allocates}
use errmark.Run.Script.{Event, stops_of, AreEvents, pieces}
use errmark.Main.{Env, main_program}
use errmark.Main.Exit.{Exits}
use errmark.Main.Choices.{Choice, mark}
use errmark.Main.Settings.{AreTold, settings}
use errmark.Main.Read.{Over, IsRead, main_program-Reads}

-- An option for each descriptor.
abbrev pub mark_both : BothMarks → List Choice
mark_both b = mark fd1 b.start1 b.end1 ∷ mark fd2 b.start2 b.end2 ∷ []

both-MarkedBoth :
    (b : BothMarks) (env : Env) (w : World)
    → AreApart b
    → MarkedBoth b (settings (mark_both b) (set_eprint_fh env.out env.err w)).marks
unfolding set_eprint_fh
both-MarkedBoth b env w apart = record {
  start1_is = mark_of-some w.libc b.start1 (clash-left b.start1 b.start2 apart.starts);
  end1_is = mark_of-some w.libc b.end1 (clash-right b.start1 b.end1 apart.start1_end1);
  start2_is = mark_of-some w.libc b.start2 (clash-right b.start1 b.start2 apart.starts);
  end2_is = mark_of-some w.libc b.end2 (clash-right b.start1 b.end2 apart.start1_end2);
}

-- Errmark with a --mark for stdout and one for stderr: who reads what it shows, skips these marks,
-- and takes what stands behind a start mark for its descriptor, has the bytes of the program's
-- writes to 1 and 2, in order, each with its descriptor; and the exit code is that of the program,
-- 0 where it was killed, the signal of a stop other than by SIGTRAP and SIGCHLD, 255 where it was
-- continued, and 0 where it is gone, found behind a first stop by a GETREGS that meets no process
-- (as where it exits with 0). No two of the four marks begin with one another (but the two end
-- marks may be the same), the program does not write the first byte of any of them, its writes are
-- readable, no messages are asked for before, a copy that is asked for can be opened, malloc gives
-- blocks of the size asked for, and argv has a first word.
pub main_program-both :
    (b : BothMarks) (env : Env) (argv : List Bytes) (es : List Event) (tail : List Stop) (code : ℕ)
    (w : World)
    → AreApart b
    → AreTold (mark_both b) env.gots
    → w.debug ≡ false
    → w.verbose ≡ false
    → Allocates w.libc
    → (length argv == 0) ≡ false
    → env.opens ≡ true
    → AreEvents es
    → all_pass (lacks_starts (skips_both b)) (pieces es) ≡ true
    → Over es tail code
    → env.stops ≡ stops_of es ++ tail
    → Exits (main_program env argv w) (λ c w'. (c ≡ code) × IsRead (told_both b) es w w')
main_program-both b env argv es tail code w apart t d v m some_word opens ev l over stops =
    main_program-Reads (mark_both b) env argv w es tail code
      (record {
        are_told = t;
        are_set = refl;
        no_debug = d;
        no_verbose = v;
        allocates = m;
        some_word = some_word;
        opens = opens;
      })
      (told_both-Reads b apart (both-MarkedBoth b env w apart)) ev l over stops
