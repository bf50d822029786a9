-- ===== src/Tests/Colored.antt =====
-- errmark --color red prog, where the program exits with 0.
use errmark.Prelude.{refl, [], ◌∷◌, List, codes, inl, inr, ◌++◌, ◌≡◌}
use errmark.Cscript.Color.{normal}
use errmark.Options.{opt_color_code}
use errmark.Main.{Got, Env, main_program}
use errmark.Main.Exit.{Exits}
use errmark.Main.Choices.{color, at_color}
use errmark.Main.Settings.{AreTold, no_more, told}
use errmark.Marks.Apart.{told_apart}
use errmark.Main.Read.{IsRead, not_found}
use errmark.Main.Colored.{main_program-colored}
use errmark.Run.Script.{stops_of}
use errmark.Run.Terminal.{gone}
use errmark.Tests.Samples.{world, libc-Allocates, script, script-AreEvents, ending}
use errmark.Tests.Main.{env, argv}
use errmark.Tests.Options.{red}

abbrev colored_gots : List Got
colored_gots =
    record { optc = opt_color_code; optarg = codes "red"; optopt = 0; word = codes "--color" } ∷ []

told_red : AreTold (color red ∷ []) colored_gots
told_red =
    told (at_color (codes "red") red 0 (codes "--color") (normal red (inr (inl refl)))) no_more

abbrev exits_0 : Env
exits_0 = record env { gots = colored_gots; stops = stops_of script ++ gone (ending 0) ∷ [] }

main_program-colored_example :
    Exits
      (main_program exits_0 argv world)
      (λ c w'. (c ≡ 0) × IsRead (told_apart red.esc_start red.esc_end) script world w')
main_program-colored_example =
    main_program-colored (codes "red") red exits_0 argv script (gone (ending 0) ∷ []) 0 world
      (normal red (inr (inl refl))) told_red refl refl refl refl libc-Allocates refl refl
      script-AreEvents refl (not_found (ending 0)) refl
