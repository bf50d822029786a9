-- ===== src/Tests/Main.antt =====
-- errmark --mark '1:<:>' --copy log ls
use errmark.Prelude.{
  true, none, some, [], ◌∷◌, ◌++◌, ◌/◌, ◌≡◌, refl, pos, codes, List, Bytes, get_elem?,
}
use errmark.World.{World, ret, on_cmd}
use errmark.Marks.Specs.{set_marks1}
use errmark.Cscript.Sname.{sname}
use errmark.Cscript.PrintFh.{set_eprint_fh}
use errmark.Run.{percent_s}
use errmark.Run.Script.{stops_of}
use errmark.Run.Leaves.{Leaves, last_end}
use errmark.Options.{opt_mark_code, opt_copy_code}
use errmark.Main.{Env, options, main_program}
use errmark.Main.Exit.{Exits, ready, main_program-Exits}
use errmark.Tests.Samples.{world, libc-Allocates, script, script-AreEvents, junk, ending}

abbrev pub argv : List Bytes
argv =
    codes "bin/errmark"
    ∷ codes "--mark"
    ∷ codes "1:<:>"
    ∷ codes "--copy"
    ∷ codes "log"
    ∷ codes "ls"
    ∷ []

abbrev pub env : Env
env = record {
  out = none;
  err = none;
  gots =
      record { optc = opt_mark_code; optarg = codes "1:<:>"; optopt = 0; word = codes "--mark" }
      ∷ record { optc = opt_copy_code; optarg = codes "log"; optopt = 0; word = codes "--copy" }
      ∷ [];
  optind = 5;
  opens = true;
  pid = pos 42;
  stops = stops_of script ++ ending 0x0300 ∷ [];
  junk = junk;
}

abbrev behind_options : World
behind_options =
    on_cmd (λ c. record c { copy_fname = some (codes "log") })
      (set_marks1 (some (codes "<")) (some (codes ">")) (set_eprint_fh none none world))

options_accepted :
    options (percent_s (sname (get_elem? argv 0))) 0 env.gots (set_eprint_fh none none world)
    ≡ ret 0 behind_options
unfolding options set_eprint_fh sname
options_accepted = refl

main_program-Exits_example : Exits (main_program env argv world) (λ code w.
    (code ≡ 0x0300 / 256)
    × Leaves
        (ready env argv behind_options)
        script
        (last_end (ready env argv behind_options) script
          ++ last_end (ready env argv behind_options) script)
        w)
unfolding set_eprint_fh
main_program-Exits_example =
    main_program-Exits env argv script (ending 0x0300) world behind_options options_accepted refl
      refl libc-Allocates refl refl script-AreEvents refl refl
