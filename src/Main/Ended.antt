-- ===== src/Main/Ended.antt =====
-- The exit code of errmark, by the way in which the program that it runs has ended.
use errmark.Prelude.{◌/◌, ◌==◌, not, true, false, List, [], ◌∷◌, ◌++◌, Bytes, length, ◌≡◌, ap, ◌∙◌}
use errmark.World.{World}
use errmark.Cscript.Ended.{Ended, status_of, InRange}
use errmark.Cscript.PrintFh.{set_eprint_fh}
use errmark.Writes.{Stop}
use errmark.Run.{ends}
use errmark.Run.Ends.{goes_on, exit_of, ends-goes_on}
use errmark.Run.PassOn.{Allocates}
use errmark.Run.Script.{Event, stops_of, AreEvents}
use errmark.Run.Leaves.{Leaves, last_end}
use errmark.Main.{Env, main_program}
use errmark.Main.Exit.{Exits, Exits-map, ready}
use errmark.Main.Choices.{Choice}
use errmark.Main.Settings.{AreTold, settings}
use errmark.Main.Chosen.{all_set, main_program-settings}

-- For such a command line and such a run, where the program has exited with a code other than 0,
-- was killed, was stopped by a signal other than SIGTRAP and SIGCHLD, or was continued, errmark
-- exits with that code, with 0, with the number of that signal, or with 255; what is shown and
-- copied is as for the settings.
pub main_program-Ended :
    (env : Env) (argv : List Bytes) (cs : List Choice) (es : List Event) (how : Ended) (last : Stop)
    (w : World)
    → AreTold cs env.gots
    → all_set cs ≡ true
    → w.debug ≡ false
    → w.verbose ≡ false
    → Allocates w.libc
    → (length argv == 0) ≡ false
    → env.opens ≡ true
    → AreEvents es
    → InRange how
    → goes_on how ≡ false
    → last.status ≡ status_of how
    → env.stops ≡ stops_of es ++ last ∷ []
    → let r = ready env argv (settings cs (set_eprint_fh env.out env.err w)) in
      Exits
        (main_program env argv w)
        (λ code w'. (code ≡ exit_of how) × Leaves r es (last_end r es ++ last_end r es) w')
main_program-Ended env argv cs es how last w t s d q m some_word opens ev range over status stops =
    let r = ready env argv (settings cs (set_eprint_fh env.out env.err w)) in
    let (e, c) = ends-goes_on how range in
    Exits-map
      (λ code w'. (code ≡ last.status / 256) × Leaves r es (last_end r es ++ last_end r es) w')
      (λ code w'. (code ≡ exit_of how) × Leaves r es (last_end r es ++ last_end r es) w')
      (main_program env argv w)
      (main_program-settings env argv cs es last w t s d q m some_word opens ev
        (ap ends status ∙ e ∙ ap not over) stops)
      λ code w' (k, h). (k ∙ ap (λ n. n / 256) status ∙ c, h)
