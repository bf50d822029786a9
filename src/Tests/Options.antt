-- ===== src/Tests/Options.antt =====
-- errmark --color red --mark '1:<:>' --copy log ls, and two wrong options.
use errmark.Prelude.{◌/◌, ◌≡◌, refl, none, some, [], ◌∷◌, ◌++◌, List, codes, inl, inr, arith}
use errmark.World.{World}
use errmark.Cscript.Color.{ColorEsc, normal, Names, lookup_color, lookup_color-Names}
use errmark.Cscript.PrintFh.{set_eprint_fh}
use errmark.Marks.Transcript.{fd1}
use errmark.Run.Leaves.{Leaves, last_end}
use errmark.Options.{opt_mark_code, opt_copy_code, opt_color_code}
use errmark.Main.{Got, Env, main_program}
use errmark.Main.Exit.{Exits, ready}
use errmark.Main.Choices.{Choice, mark, color, copy, wrong, at_mark, at_color, at_copy, at_wrong}
use errmark.Main.Settings.{AreTold, no_more, told, settings}
use errmark.Main.Rejects.{main_program-rejects}
use errmark.Run.Script.{stops_of}
use errmark.Run.Terminal.{gone}
use errmark.Main.Gone.{main_program-gone}
use errmark.Main.Debug.{Undefines, debug_got, main_program-Undefines}
use errmark.Main.Final.{bad_color, main_program-Final}
use errmark.Main.Ended.{main_program-Ended}
use errmark.Cscript.Ended.{exited}
use errmark.Main.Chosen.{main_program-settings}
use errmark.Tests.Samples.{
  world, libc-Allocates, first_event, later_events, script, script-AreEvents, ending,
}
use errmark.Tests.Main.{env, argv}

abbrev pub red : ColorEsc
red = record { name = codes "red"; esc_start = 0x1b ∷ codes "[0;31m"; esc_end = 0x1b ∷ codes "[m" }

abbrev choices : List Choice
choices = color red ∷ mark fd1 (codes "<") (codes ">") ∷ copy (codes "log") ∷ []

abbrev gots : List Got
gots =
    record { optc = opt_color_code; optarg = codes "red"; optopt = 0; word = codes "--color" }
    ∷ record { optc = opt_mark_code; optarg = codes "1:<:>"; optopt = 0; word = codes "--mark" }
    ∷ record { optc = opt_copy_code; optarg = codes "log"; optopt = 0; word = codes "--copy" }
    ∷ []

told_choices : AreTold choices gots
told_choices = told (at_color (codes "red") red 0 (codes "--color") (normal red (inr (inl refl)))) (
    told (at_mark fd1 b':' (codes "<") (codes ">") 0 (codes "--mark") (λ h. cc) refl refl)
      (told (at_copy (codes "log") 0 (codes "--copy")) no_more))

abbrev env_choices : Env
env_choices = record env { gots = gots; optind = 7 }

abbrev run_world : World
run_world = ready env_choices argv (settings choices (set_eprint_fh none none world))

main_program-settings_example : Exits (main_program env_choices argv world) (λ code w.
    (code ≡ 0x0300 / 256)
    × Leaves run_world script (last_end run_world script ++ last_end run_world script) w)
main_program-settings_example =
    main_program-settings env_choices argv choices script (ending 0x0300) world told_choices refl
      refl refl libc-Allocates refl refl script-AreEvents refl refl

-- errmark -x --color red -y
abbrev mixed : List Got
mixed =
    record { optc = b'?'; optarg = []; optopt = b'x'; word = codes "-x" }
    ∷ record { optc = opt_color_code; optarg = codes "red"; optopt = 0; word = codes "--color" }
    ∷ record { optc = b'?'; optarg = []; optopt = b'y'; word = codes "-y" }
    ∷ []

told_mixed : AreTold (wrong ∷ color red ∷ wrong ∷ []) mixed
told_mixed = told (at_wrong [] b'x' (codes "-x") refl) (
    told (at_color (codes "red") red 0 (codes "--color") (normal red (inr (inl refl))))
      (told (at_wrong [] b'y' (codes "-y") refl) no_more))

main_program-rejects_example :
    Exits
      (main_program (record env { gots = mixed }) argv world)
      (λ code w. (code ≡ 1) × (w.requests ≡ world.requests))
main_program-rejects_example =
    main_program-rejects (record env { gots = mixed }) argv (wrong ∷ color red ∷ wrong ∷ []) world
      told_mixed refl (omega arith)

no_pink : (ent : ColorEsc) → Names (codes "pink") ent → ⊥
unfolding lookup_color
no_pink ent h = nothing ((lookup_color-Names (codes "pink") ent).1 h)
  where
    nothing : none ≡ some ent → ⊥
    nothing e = cc

abbrev marked : Got
marked = record { optc = opt_mark_code; optarg = codes "1:<:>"; optopt = 0; word = codes "--mark" }

abbrev bad_color_pink : Got
bad_color_pink = record {
  optc = opt_color_code;
  optarg = codes "pink";
  optopt = 0;
  word = codes "--color";
}

abbrev pink : List Got
pink = marked ∷ bad_color_pink ∷ []

-- errmark --mark '1:<:>' --color pink
main_program-Final_example :
    Exits
      (main_program (record env { gots = pink }) argv world)
      (λ code w. (code ≡ 2) × (w.requests ≡ world.requests))
main_program-Final_example =
    main_program-Final (record env { gots = pink }) argv (mark fd1 (codes "<") (codes ">") ∷ [])
      (marked ∷ []) [] bad_color_pink 2 world refl
      (told (at_mark fd1 b':' (codes "<") (codes ">") 0 (codes "--mark") (λ h. cc) refl refl)
        no_more)
      (omega arith) (bad_color (codes "pink") 0 (codes "--color") no_pink) refl

-- The program exits with 3.
main_program-Ended_example : Exits (main_program env_choices argv world) (λ code w.
    (code ≡ 3) × Leaves run_world script (last_end run_world script ++ last_end run_world script) w)
main_program-Ended_example =
    main_program-Ended env_choices argv choices script (exited 3) (ending 0x0300) world told_choices
      refl refl refl libc-Allocates refl refl script-AreEvents (omega arith) refl refl refl

-- errmark --mark '1:<:>' --debug --color pink
main_program-Undefines_example : Undefines (
    main_program
      (record env { gots = marked ∷ debug_got [] 0 (codes "--debug") ∷ bad_color_pink ∷ [] })
      argv
      world)
main_program-Undefines_example =
    main_program-Undefines
      (record env { gots = marked ∷ debug_got [] 0 (codes "--debug") ∷ bad_color_pink ∷ [] }) argv
      (mark fd1 (codes "<") (codes ">") ∷ []) (marked ∷ []) [] [] 0 (codes "--debug") bad_color_pink
      world refl
      (told (at_mark fd1 b':' (codes "<") (codes ">") 0 (codes "--mark") (λ h. cc) refl refl)
        no_more)
      (omega arith) refl refl

abbrev gone_choices : Env
gone_choices = record env_choices { stops = stops_of script ++ gone (ending 0) ∷ [] }

abbrev gone_world : World
gone_world = ready gone_choices argv (settings choices (set_eprint_fh none none world))

-- The program exits with 0.
main_program-gone_example :
    Exits
      (main_program gone_choices argv world)
      (λ code w. (code ≡ 0) × Leaves gone_world script (last_end gone_world script) w)
main_program-gone_example =
    main_program-gone gone_choices argv choices first_event later_events (ending 0) world
      told_choices refl refl refl libc-Allocates refl refl script-AreEvents refl
