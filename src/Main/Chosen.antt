-- ===== src/Main/Chosen.antt =====
-- A whole run of errmark, from its command line to its exit.
use errmark.Prelude.{
  ℕ, ◌/◌, ◌==◌, ◌&&◌, Bool, true, false, Option, List, [], ◌∷◌, ◌++◌, Bytes, get_elem?, left_of,
  right_of, length, ◌≡◌, refl, sym, ap, subst, ◌∙◌, if◌then◌else◌,
}
use errmark.World.{World, Outcome, ret, bind, when, pure}
use errmark.Cscript.Sname.{sname}
use errmark.Cscript.PrintFh.{set_eprint_fh}
use errmark.Marks.Specs.{parse_mark_specs}
use errmark.Marks.Transcript.{Fd, fd1, fd2}
use errmark.Marks.Parsing.{fd_digit, set_marks, parse_mark_specs-set_marks}
use errmark.Options.{opt_mark}
use errmark.Writes.{Stop}
use errmark.Run.{ends, percent_s}
use errmark.Run.PassOn.{Allocates}
use errmark.Run.Script.{Event, stops_of, AreEvents}
use errmark.Run.Leaves.{Leaves, last_end}
use errmark.Main.{Got, Env, take_option, switch_optc, debug_option, options, main_program}
use errmark.Main.Exit.{Exits, ready, main_program-Exits}
use errmark.Main.Choices.{
  Choice, verbose, mark, color, copy, wrong, Tells, at_verbose, at_wrong, at_mark, at_color,
  at_copy, put,
}
use errmark.Main.Done.{opt_color-put}
use errmark.Main.Settings.{AreTold, no_more, told, settings}

-- The choices that only set something, and print nothing.
abbrev pub sets : Choice → Bool
sets verbose = false
sets (mark fd m_start m_end) = true
sets (color ent) = true
sets (copy fname) = true
sets wrong = false

abbrev pub all_set : List Choice → Bool
all_set [] = true
all_set (c ∷ cs) = sets c && all_set cs

opt_mark-silent :
    (s : Bytes) (w v : World)
    → v.verbose ≡ false
    → parse_mark_specs s w ≡ ret true v
    → opt_mark s w ≡ ret tt v
unfolding opt_mark
opt_mark-silent s w v q e = rw (e, q) refl

set_marks-verbose :
    (s e : Option Bytes) (fd : Fd) (w : World)
    → w.verbose ≡ false
    → (set_marks fd s e w).verbose ≡ false
set_marks-verbose s e fd1 w q = q
set_marks-verbose s e fd2 w q = q

switch_sets :
    (name : Bytes) (n : ℕ) (c : Choice) (got : Got) (w : World)
    → Tells c got
    → sets c ≡ true
    → w.debug ≡ false
    → w.verbose ≡ false
    → switch_optc name n (if got.optc == b'?' && got.optopt == b'?' then b'h' else got.optc) got w
      ≡ ret n (put c w)
unfolding switch_optc
switch_sets name n _ _ w (at_mark fd sep m_start m_end opt text z l a) s d q =
    ap (λ (o : Outcome (Unit {0})). bind o (λ _. pure n))
      (opt_mark-silent (fd_digit fd ∷ sep ∷ (m_start ++ sep ∷ m_end)) w _
        (set_marks-verbose _ _ fd w q) (parse_mark_specs-set_marks fd sep m_start m_end w z l d))
switch_sets name n _ _ w (at_color cname ent opt text known) s d q =
    ap (λ (o : Outcome (Unit {0})). bind o (λ _. pure n)) (opt_color-put cname ent w known)
switch_sets name n _ _ w (at_copy fname opt text) s d q = refl
switch_sets name n _ _ w (at_verbose arg opt text) s d q = cc
switch_sets name n _ _ w (at_wrong arg opt text other) s d q = cc

take_option-sets :
    (name : Bytes) (n : ℕ) (c : Choice) (got : Got) (w : World)
    → Tells c got
    → sets c ≡ true
    → w.debug ≡ false
    → w.verbose ≡ false
    → take_option name n got w ≡ ret n (put c w)
unfolding take_option
take_option-sets name n c got w t s d q =
    let optc = if got.optc == b'?' && got.optopt == b'?' then b'h' else got.optc in
    ap (λ b. bind (when b (debug_option got.optc) w) (λ _. switch_optc name n optc got)) d
    ∙ switch_sets name n c got w t s d q

-- Neither message is switched on by a choice that only sets something.
put-silent :
    (c : Choice) (w : World)
    → sets c ≡ true
    → w.debug ≡ false
    → w.verbose ≡ false
    → ((put c w).debug ≡ false) × ((put c w).verbose ≡ false)
put-silent verbose w s d q = cc
put-silent (mark fd1 m_start m_end) w s d q = (d, q)
put-silent (mark fd2 m_start m_end) w s d q = (d, q)
put-silent (color ent) w s d q = (d, q)
put-silent (copy fname) w s d q = (d, q)
put-silent wrong w s d q = cc

pub settings-silent :
    (cs : List Choice) (w : World)
    → all_set cs ≡ true
    → w.debug ≡ false
    → w.verbose ≡ false
    → ((settings cs w).debug ≡ false) × ((settings cs w).verbose ≡ false)
settings-silent [] w s d q = (d, q)
settings-silent (c ∷ cs) w s d q =
    let (d', q') = put-silent c w (left_of (sets c) (all_set cs) s) d q in
    settings-silent cs (put c w) (right_of (sets c) (all_set cs) s) d' q'

-- Options that are colors by their names, marks with both strings in ASCII, and names for the copy
-- are all accepted, and make just their settings, in order, and print nothing, where --debug and
-- --verbose are off.
pub options-settings :
    (name : Bytes) (cs : List Choice) (gots : List Got) (w : World)
    → AreTold cs gots
    → all_set cs ≡ true
    → w.debug ≡ false
    → w.verbose ≡ false
    → options name 0 gots w ≡ ret 0 (settings cs w)
unfolding options
options-settings name _ _ w no_more s d q = refl
options-settings name _ _ w (told {c} {got} {cs} {gots} t ts) s d q =
    let here = left_of (sets c) (all_set cs) s in
    let (d', q') = put-silent c w here d q in
    ap (λ (o : Outcome ℕ). bind o (λ m. options name m gots))
      (take_option-sets name 0 c got w t here d q)
    ∙ options-settings name cs gots (put c w) ts (right_of (sets c) (all_set cs) s) d' q'

put-libc : (c : Choice) (w : World) → (put c w).libc ≡ w.libc
put-libc verbose w = refl
put-libc (mark fd1 m_start m_end) w = refl
put-libc (mark fd2 m_start m_end) w = refl
put-libc (color ent) w = refl
put-libc (copy fname) w = refl
put-libc wrong w = refl

pub settings-libc : (cs : List Choice) (w : World) → (settings cs w).libc ≡ w.libc
settings-libc [] w = refl
settings-libc (c ∷ cs) w = settings-libc cs (put c w) ∙ put-libc c w

-- Of a command line whose options are colors by their names, marks with both strings in ASCII, and
-- names for the copy, the settings are made in order (the last of two counts), and the program is
-- run with them: errmark exits with the bits from 8 on of the status that ends the run, with the
-- transcript under these marks shown, the end mark of the last run shown twice more, and the errors
-- copied. The copy can be opened, malloc gives blocks of the size asked for, the writes are
-- readable, and the run ends with a status that is no stop by SIGTRAP or SIGCHLD; no messages are
-- asked for before, and argv has a first word.
pub main_program-settings :
    (env : Env) (argv : List Bytes) (cs : List Choice) (es : List Event) (last : Stop) (w : World)
    → AreTold cs env.gots
    → all_set cs ≡ true
    → w.debug ≡ false
    → w.verbose ≡ false
    → Allocates w.libc
    → (length argv == 0) ≡ false
    → env.opens ≡ true
    → AreEvents es
    → ends last.status ≡ true
    → env.stops ≡ stops_of es ++ last ∷ []
    → let r = ready env argv (settings cs (set_eprint_fh env.out env.err w)) in
      Exits
        (main_program env argv w)
        (λ code w'. (code ≡ last.status / 256) × Leaves r es (last_end r es ++ last_end r es) w')
main_program-settings env argv cs es last w t s d q m some_word opens ev e stops =
    let v = set_eprint_fh env.out env.err w in
    let dv : v.debug ≡ false = (unfold set_eprint_fh in d) in
    let qv : v.verbose ≡ false = (unfold set_eprint_fh in q) in
    let (d', q') = settings-silent cs v s dv qv in
    main_program-Exits env argv es last w (settings cs v)
      (options-settings (percent_s (sname (get_elem? argv 0))) cs env.gots v t s dv qv) d' q'
      (subst Allocates (sym (settings-libc cs v)) (unfold set_eprint_fh in m)) some_word opens ev e
      stops
