-- ===== src/Main/Gone.antt =====
-- A whole run of errmark with a program that exits with 0.
use errmark.Prelude.{
  ◌==◌, true, false, List, [], ◌∷◌, ◌++◌, Bytes, get_elem?, length, ◌≡◌, sym, subst,
}
use errmark.World.{World}
use errmark.World.Returns.{Returns}
use errmark.Cscript.PrintFh.{set_eprint_fh}
use errmark.Cscript.Sname.{sname}
use errmark.Writes.{Stop}
use errmark.Run.{percent_s, run_parent}
use errmark.Run.PassOn.{Allocates}
use errmark.Run.Script.{Event, stops_of, AreEvents}
use errmark.Run.Leaves.{Leaves, last_end}
use errmark.Run.Terminal.{gone, run_parent-gone}
use errmark.Main.{Env, fill_cmd, launch, main_program}
use errmark.Main.Exit.{Exits, Exits-after, launch-by, ready, ready-IsQuiet}
use errmark.Main.Choices.{Choice}
use errmark.Main.Settings.{AreTold, settings}
use errmark.Main.Chosen.{all_set, options-settings, settings-silent, settings-libc}

launch-gone :
    (env : Env) (argv : List Bytes) (e : Event) (es : List Event) (last : Stop) (w : World)
    → w.debug ≡ false
    → w.verbose ≡ false
    → Allocates w.libc
    → (length argv == 0) ≡ false
    → env.opens ≡ true
    → AreEvents (e ∷ es)
    → env.stops ≡ stops_of (e ∷ es) ++ gone last ∷ []
    → Exits (launch env argv w) (λ code w'.
      (code ≡ 0) × Leaves (ready env argv w) (e ∷ es) (last_end (ready env argv w) (e ∷ es)) w')
unfolding fill_cmd
launch-gone env argv e es last w d v m some_word opens ev stops =
    let r = ready env argv w in
    let more = last_end r (e ∷ es) in
    launch-by env argv (e ∷ es) 0 more w d v some_word opens (
      subst
        (λ k.
          Returns (run_parent env.pid k env.junk r) (λ rc w'. (rc ≡ 0) × Leaves r (e ∷ es) more w'))
        (sym stops)
        (run_parent-gone r (ready-IsQuiet env argv w d v) m env.pid e es ev last env.junk))

-- For a command line whose options are colors by their names, marks with both strings in ASCII, and
-- names for the copy, and a program that makes at least one stop and then is gone, found by a
-- GETREGS that meets no process (as where it exits with 0), errmark exits with 0, with the
-- transcript under the marks that are set shown, the end mark of the last run shown once more, and
-- the errors copied. The copy can be opened, malloc gives blocks of the size asked for, the writes
-- are readable, no messages are asked for before, and argv has a first word.
pub main_program-gone :
    (env : Env) (argv : List Bytes) (cs : List Choice) (e : Event) (es : List Event) (last : Stop)
    (w : World)
    → AreTold cs env.gots
    → all_set cs ≡ true
    → w.debug ≡ false
    → w.verbose ≡ false
    → Allocates w.libc
    → (length argv == 0) ≡ false
    → env.opens ≡ true
    → AreEvents (e ∷ es)
    → env.stops ≡ stops_of (e ∷ es) ++ gone last ∷ []
    → let r = ready env argv (settings cs (set_eprint_fh env.out env.err w)) in
      Exits
        (main_program env argv w)
        (λ code w'. (code ≡ 0) × Leaves r (e ∷ es) (last_end r (e ∷ es)) w')
unfolding main_program
main_program-gone env argv cs e es last w t s d q m some_word opens ev stops =
    let v = set_eprint_fh env.out env.err w in
    let dv : v.debug ≡ false = (unfold set_eprint_fh in d) in
    let qv : v.verbose ≡ false = (unfold set_eprint_fh in q) in
    let (d', q') = settings-silent cs v s dv qv in
    Exits-after _ _
      (options-settings (percent_s (sname (get_elem? argv 0))) cs env.gots v t s dv qv)
      (launch-gone env argv e es last (settings cs v) d' q'
        (subst Allocates (sym (settings-libc cs v)) (unfold set_eprint_fh in m)) some_word opens ev
        stops)
