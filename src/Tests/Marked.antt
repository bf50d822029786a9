-- ===== src/Tests/Marked.antt =====
-- errmark with marks of several bytes, for stderr and for both descriptors.
use errmark.Prelude.{inl, refl, [], ◌∷◌, codes, ◌++◌, ◌≡◌, arith}
use errmark.Cscript.Ended.{exited}
use errmark.Marks.Transcript.{fd1, fd2}
use errmark.Marks.Apart.{told_apart}
use errmark.Marks.Both.{BothMarks, told_both}
use errmark.Options.{opt_mark_code}
use errmark.Main.{Env, main_program}
use errmark.Main.Exit.{Exits}
use errmark.Main.Choices.{at_mark}
use errmark.Main.Settings.{AreTold, no_more, told}
use errmark.Main.Read.{IsRead, told_of, not_found}
use errmark.Main.Apart.{mark_stderr, main_program-told_apart}
use errmark.Main.Both.{mark_both, main_program-both}
use errmark.Run.Script.{stops_of}
use errmark.Run.Terminal.{gone}
use errmark.Tests.Samples.{world, libc-Allocates, script, script-AreEvents, ending}
use errmark.Tests.Main.{env, argv}

-- errmark --mark '2:<E>:</E>' ls
abbrev angles : Env
angles = record env {
  gots =
      record {
        optc = opt_mark_code;
        optarg = codes "2:<E>:</E>";
        optopt = 0;
        word = codes "--mark";
      }
      ∷ [];
  optind = 3;
}

told_angles : AreTold (mark_stderr (codes "<E>") (codes "</E>")) angles.gots
told_angles =
    told (at_mark fd2 b':' (codes "<E>") (codes "</E>") 0 (codes "--mark") (λ h. cc) refl refl)
      no_more

main_program-told_apart_example :
    Exits
      (main_program angles argv world)
      (λ c w'. (c ≡ 3) × IsRead (told_apart (codes "<E>") (codes "</E>")) script world w')
main_program-told_apart_example =
    main_program-told_apart (codes "<E>") (codes "</E>") angles argv script (ending 0x0300 ∷ []) 3
      world refl told_angles refl refl refl refl libc-Allocates refl refl script-AreEvents refl
      (told_of (exited 3) (ending 0x0300) (omega arith) refl refl) refl

-- errmark --mark '1:<O>:</>' --mark '2:<E>:</>' ls, where the program exits with 0.
abbrev both : BothMarks
both = record { start1 = codes "<O>"; end1 = codes "</>"; start2 = codes "<E>"; end2 = codes "</>" }

abbrev both_env : Env
both_env = record env {
  gots =
      record { optc = opt_mark_code; optarg = codes "1:<O>:</>"; optopt = 0; word = codes "--mark" }
      ∷ record {
        optc = opt_mark_code;
        optarg = codes "2:<E>:</>";
        optopt = 0;
        word = codes "--mark";
      }
      ∷ [];
  stops = stops_of script ++ gone (ending 0) ∷ [];
}

told_both_marks : AreTold (mark_both both) both_env.gots
told_both_marks =
    told (at_mark fd1 b':' (codes "<O>") (codes "</>") 0 (codes "--mark") (λ h. cc) refl refl) (
      told (at_mark fd2 b':' (codes "<E>") (codes "</>") 0 (codes "--mark") (λ h. cc) refl refl)
        no_more)

main_program-both_example :
    Exits
      (main_program both_env argv world)
      (λ c w'. (c ≡ 0) × IsRead (told_both both) script world w')
main_program-both_example =
    main_program-both both both_env argv script (gone (ending 0) ∷ []) 0 world
      (record {
        starts = refl;
        start1_end1 = refl;
        start2_end1 = refl;
        start1_end2 = refl;
        start2_end2 = refl;
        ends = inl refl;
      })
      told_both_marks refl refl libc-Allocates refl refl script-AreEvents refl
      (not_found (ending 0)) refl
