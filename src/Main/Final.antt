-- ===== src/Main/Final.antt =====
-- The options that end the program.
use errmark.Prelude.{
  ℕ, ◌+◌, ◌-◌, ◌≤◌, Bool, true, false, not, ◌||◌, ◌&&◌, ◌==◌, leb, Option, none, some, List, [],
  ◌∷◌, ◌++◌, Bytes, codes, get_elem?, ◌≡◌, refl, sym, ap, subst, ◌∙◌, if◌then◌else◌, arith,
}
use errmark.Stdio.{Stream}
use errmark.World.{World, Request, ret, bind, when, print_stderr, exit_with}
use errmark.World.OnlyIo.{OnlyIo, OnlyIo-refl, when-OnlyIo}
use errmark.Cscript.Ascii.{are_ascii}
use errmark.Cscript.Color.{
  ColorEsc, Names, lookup_color, lookup_color-Names, normal_colors, bright_colors,
}
use errmark.Cscript.Sname.{sname}
use errmark.Cscript.PrintFh.{set_eprint_fh}
use errmark.Marks.Specs.{parse_mark_specs, parse_marks}
use errmark.Options.{
  opt_mark, opt_color, set_color, unknown_color, fshow_color_table, show_names,
  show_program_version, print_stdout,
}
use errmark.Run.{percent_s}
use errmark.Main.{Got, Env, debug_option, switch_optc, take_option, options, main_program}
use errmark.Main.Exit.{Exits, Exits-bind, Exits-first}
use errmark.Main.Choices.{Choice, value_of, put, wrong_of}
use errmark.Main.Done.{show_spec-OnlyIo, take_option-put}
use errmark.Main.Settings.{AreTold, no_more, told, wrongs, Steady, OnlyIo-Steady, put-Steady, few}
use errmark.Main.Rejects.{set_eprint_fh-Steady}

-- Not the argument of a mark: the first character is no descriptor that can be marked.
abbrev pub no_mark : Bytes → Bool
no_mark [] = true
no_mark (c ∷ s) = not (c == b'1' || c == b'2')

-- The result of getopt_long() at which the program ends, and the code with which it exits.
pub data Final : Got → ℕ → Type 0 where
  help :
      (arg : Bytes) (opt : ℕ) (text : Bytes)
      → Final (record { optc = value_of (codes "help"); optarg = arg; optopt = opt; word = text }) 0
  question_mark :
      (arg text : Bytes)
      → Final (record { optc = b'?'; optarg = arg; optopt = b'?'; word = text }) 0
  version :
      (arg : Bytes) (opt : ℕ) (text : Bytes)
      → Final
          (record { optc = value_of (codes "version"); optarg = arg; optopt = opt; word = text })
          0
  bad_mark :
      (spec : Bytes) (opt : ℕ) (text : Bytes)
      → are_ascii spec ≡ true
      → no_mark spec ≡ true
      → Final
          (record { optc = value_of (codes "mark"); optarg = spec; optopt = opt; word = text })
          2
  bad_color :
      (name : Bytes) (opt : ℕ) (text : Bytes)
      → ((ent : ColorEsc) → Names name ent → ⊥)
      → Final
          (record { optc = value_of (codes "color"); optarg = name; optopt = opt; word = text })
          2

-- The program has ended with this code, and these are the requests made.
abbrev pub ExitedWith : ℕ → List Request → ℕ → World → Type 0
ExitedWith code q c u = (c ≡ code) × (u.requests ≡ q)

show_names-requests :
    (i : ℕ) (table : List ColorEsc) (w : World) → (show_names i table w).requests ≡ w.requests
unfolding show_names print_stderr
show_names-requests i [] w = refl
show_names-requests i (ent ∷ table) w =
    show_names-requests (i + 1) table
      (print_stderr ent.name (if leb 1 i then print_stderr (codes " ") w else w))
    ∙ spaced (leb 1 i)
  where
    spaced : (b : Bool) → (if b then print_stderr (codes " ") w else w).requests ≡ w.requests
    spaced true = refl
    spaced false = refl

unknown_color-requests : (name : Bytes) (w : World) → (unknown_color name w).requests ≡ w.requests
unfolding unknown_color fshow_color_table print_stderr
unknown_color-requests name w =
    let first = print_stderr (codes "    ") (
      print_stderr (codes "Known color names are:\n")
        (print_stderr (codes "Unknown color, '" ++ (name ++ codes "'.\n")) w)) in
    let second =
      print_stderr (codes "    ") (print_stderr (codes "\n") (show_names 0 normal_colors first)) in
    show_names-requests 0 bright_colors second ∙ show_names-requests 0 normal_colors first

parse_bad : (s : Bytes) (w : World) → no_mark s ≡ true → parse_mark_specs s w ≡ ret false w
unfolding parse_mark_specs
parse_bad [] w h = refl
parse_bad (c ∷ s) w h = refused (c == b'1' || c == b'2') h
  where
    refused :
        (b : Bool)
        → not b ≡ true
        → (if b then parse_marks (c - b'0') s w else ret false w) ≡ ret false w
    refused true k = cc
    refused false k = refl

opt_mark-exits :
    (q : List Request) (s : Bytes) (w : World)
    → are_ascii s ≡ true
    → no_mark s ≡ true
    → w.requests ≡ q
    → Exits (opt_mark s w) (ExitedWith 2 q)
unfolding opt_mark
opt_mark-exits q s w a h r = rw (parse_bad s w h) (
    Exits-bind (λ _. OnlyIo w) (ExitedWith 2 q) _ (λ _. exit_with 2)
      (when-OnlyIo (w.verbose || not false) _ w w (OnlyIo-refl w) (show_spec-OnlyIo s w a))
      λ _ u k. (refl, ap (λ (x : World). x.requests) k.same ∙ r))

opt_color-exits :
    (q : List Request) (name : Bytes) (w : World)
    → ((ent : ColorEsc) → Names name ent → ⊥)
    → w.requests ≡ q
    → Exits (opt_color name w) (ExitedWith 2 q)
unfolding opt_color set_color
opt_color-exits q name w none_such r = found (lookup_color (some name)) refl
  where
    found :
        (o : Option ColorEsc)
        → lookup_color (some name) ≡ o
        → Exits (set_color name o w) (ExitedWith 2 q)
    found none e = (refl, unknown_color-requests name w ∙ r)
    found (some ent) e = absurd (none_such ent ((lookup_color-Names name ent).0 e))

switch_optc-Final :
    (name : Bytes) (n : ℕ) (got : Got) (code : ℕ) (q : List Request) (w : World)
    → Final got code
    → w.requests ≡ q
    → Exits
        (switch_optc name n
          (if got.optc == b'?' && got.optopt == b'?' then b'h' else got.optc)
          got
          w)
        (ExitedWith code q)
unfolding switch_optc print_stdout show_program_version
switch_optc-Final name n _ _ q w (help arg opt text) r = (refl, r)
switch_optc-Final name n _ _ q w (question_mark arg text) r = (refl, r)
switch_optc-Final name n _ _ q w (version arg opt text) r = (refl, r)
switch_optc-Final name n _ _ q w (bad_mark spec opt text a h) r =
    Exits-first (ExitedWith 2 q) (opt_mark spec w) _ (opt_mark-exits q spec w a h r)
switch_optc-Final name n _ _ q w (bad_color cname opt text none_such) r =
    Exits-first (ExitedWith 2 q) (opt_color cname w) _ (opt_color-exits q cname w none_such r)

take_option-Final :
    (name : Bytes) (n : ℕ) (got : Got) (code : ℕ) (q : List Request) (w : World)
    → Final got code
    → w.debug ≡ false
    → w.requests ≡ q
    → Exits (take_option name n got w) (ExitedWith code q)
unfolding take_option
take_option-Final name n got code q w t d r =
    let optc = if got.optc == b'?' && got.optopt == b'?' then b'h' else got.optc in
    subst
      (λ b.
        Exits (bind (when b (debug_option got.optc) w) (λ _. switch_optc name n optc got))
          (ExitedWith code q))
      (sym d) (switch_optc-Final name n got code q w t r)

module _ (f : Stream) (name : Bytes) (got : Got) (code : ℕ) (rest : List Got)
    (t : Final got code) where
  options-Final :
      (cs : List Choice) (gots : List Got) (n : ℕ) (q : List Request) (w : World)
      → AreTold cs gots
      → Steady f q w
      → n + wrongs cs ≤ 10
      → Exits (options name n (gots ++ got ∷ rest) w) (ExitedWith code q)
  unfolding options
  options-Final _ _ n q w no_more s h =
      rw (few n (omega arith), options)
        (Exits-first (ExitedWith code q) (take_option name n got w) _
          (take_option-Final name n got code q w t s.no_debug s.requests_are))
  options-Final _ _ n q w (told {c} {got = g} {cs} {gots} k ks) s h =
      rw (few n (omega arith), options)
        (Exits-bind (λ m u. (m ≡ n + wrong_of c) × OnlyIo (put c w) u) (ExitedWith code q)
          (take_option name n g w) _ (take_option-put f name n c g w k s.no_debug s.errprint_is)
          λ m u (e, o).
            options-Final cs gots m q u ks (OnlyIo-Steady o (put-Steady c s)) (omega arith))

-- Behind options that are in order, with ten wrong ones among them at most, the first --help, -?,
-- --version, --mark with an argument in ASCII that begins with neither 1 nor 2, or --color with a
-- name that there is not ends errmark, whatever follows: with 0 in the first three cases and with 2
-- in the other two, and without a request to ptrace(2). Debugging is off before.
pub main_program-Final :
    (env : Env) (argv : List Bytes) (cs : List Choice) (gots rest : List Got) (got : Got) (code : ℕ)
    (w : World)
    → env.gots ≡ gots ++ got ∷ rest
    → AreTold cs gots
    → wrongs cs ≤ 10
    → Final got code
    → w.debug ≡ false
    → Exits (main_program env argv w) (λ c u. (c ≡ code) × (u.requests ≡ w.requests))
unfolding main_program
main_program-Final env argv cs gots rest got code w e ts few_wrong t d =
    let name = percent_s (sname (get_elem? argv 0)) in
    let v = set_eprint_fh env.out env.err w in
    let (f, s) = set_eprint_fh-Steady env w d in
    let ended : Exits (options name 0 (gots ++ got ∷ rest) v) (ExitedWith code w.requests) =
      options-Final f name got code rest t cs gots 0 w.requests v ts s (omega arith) in
    Exits-first (ExitedWith code w.requests) (options name 0 env.gots v) _
      (subst (λ g. Exits (options name 0 g v) (ExitedWith code w.requests)) (sym e) ended)
