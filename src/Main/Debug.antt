-- ===== src/Main/Debug.antt =====
-- The option --debug, where there is no stream for debugging output.
use errmark.Prelude.{
  ℕ, ◌+◌, ◌≤◌, true, false, none, List, ◌∷◌, ◌++◌, Bytes, codes, hex, get_elem?, ◌≡◌, refl, sym, ap,
  subst, ◌∙◌, arith,
}
use errmark.Stdio.{Stream}
use errmark.World.{
  World, Request, Outcome, M, ret, exit, abort, undefined, wait, bind, when, dbg_printf, fprint,
}
use errmark.World.Returns.{Returns-on}
use errmark.World.OnlyIo.{OnlyIo}
use errmark.Cscript.Sname.{sname}
use errmark.Cscript.PrintFh.{set_eprint_fh}
use errmark.Marks.Transcript.{fd1, fd2}
use errmark.Run.{percent_s}
use errmark.Main.{Got, Env, debug_option, switch_optc, take_option, options, main_program}
use errmark.Main.Choices.{Choice, verbose, mark, color, copy, wrong, value_of, put, wrong_of}
use errmark.Main.Done.{take_option-put}
use errmark.Main.Settings.{AreTold, no_more, told, wrongs, Steady, OnlyIo-Steady, put-Steady, few}
use errmark.Main.Rejects.{set_eprint_fh-Steady}

abbrev pub Undefines {ℓ} : {A : Type ℓ} → Outcome A → Type 0
Undefines (ret a w) = ⊥
Undefines (exit code w) = ⊥
Undefines (abort w) = ⊥
Undefines (undefined w) = Unit {0}
Undefines (wait w) = ⊥

Undefines-first {ℓ κ} :
    {A : Type ℓ} {B : Type κ} (o : Outcome A) (f : A → M B) → Undefines o → Undefines (bind o f)
Undefines-first (ret a w) f h = absurd h
Undefines-first (exit code w) f h = absurd h
Undefines-first (abort w) f h = absurd h
Undefines-first (undefined w) f h = tt
Undefines-first (wait w) f h = absurd h

-- The result of getopt_long() for --debug.
abbrev pub debug_got : Bytes → ℕ → Bytes → Got
debug_got arg opt text = record {
  optc = value_of (codes "debug");
  optarg = arg;
  optopt = opt;
  word = text;
}

put-dbgprint : (c : Choice) (w : World) → (put c w).dbgprint_fh ≡ w.dbgprint_fh
put-dbgprint verbose w = refl
put-dbgprint (mark fd1 m_start m_end) w = refl
put-dbgprint (mark fd2 m_start m_end) w = refl
put-dbgprint (color ent) w = refl
put-dbgprint (copy fname) w = refl
put-dbgprint wrong w = refl

no_stream :
    (text : Bytes) (w : World)
    → w.dbgprint_fh ≡ none
    → Undefines (dbg_printf text (record w { debug = true }))
unfolding dbg_printf fprint
no_stream text w e = subst (λ f. Undefines (fprint f text (record w { debug = true }))) (sym e) tt

-- The round behind --debug writes to a stream that is NULL.
debugged :
    (name : Bytes) (n : ℕ) (got : Got) (w : World)
    → w.dbgprint_fh ≡ none
    → Undefines (take_option name n got (record w { debug = true }))
unfolding take_option debug_option
debugged name n got w e =
    let v = record w { debug = true } in
    Undefines-first (debug_option got.optc v) _
      (Undefines-first (dbg_printf (codes "optc=0x" ++ hex got.optc) v) _ (no_stream _ w e))

-- The round of --debug itself.
debug_set :
    (name : Bytes) (n : ℕ) (arg : Bytes) (opt : ℕ) (text : Bytes) (w : World)
    → w.debug ≡ false
    → take_option name n (debug_got arg opt text) w ≡ ret n (record w { debug = true })
unfolding take_option switch_optc
debug_set name n arg opt text w d =
    ap
      (λ b.
        bind (when b (debug_option b'd') w) (λ _. switch_optc name n b'd' (debug_got arg opt text)))
      d

module _ (f : Stream) (name : Bytes) (arg : Bytes) (opt : ℕ) (text : Bytes) (got : Got)
    (rest : List Got) where
  options-Undefines :
      (cs : List Choice) (gots : List Got) (n : ℕ) (q : List Request) (w : World)
      → AreTold cs gots
      → Steady f q w
      → w.dbgprint_fh ≡ none
      → n + wrongs cs ≤ 10
      → Undefines (options name n (gots ++ debug_got arg opt text ∷ got ∷ rest) w)
  unfolding options
  options-Undefines _ _ n q w no_more s e h =
      rw (few n (omega arith), options)
        (subst (λ o. Undefines (bind o (λ m. options name m (got ∷ rest))))
          (sym (debug_set name n arg opt text w s.no_debug))
          (rw (few n (omega arith), options)
            (Undefines-first (take_option name n got (record w { debug = true })) _
              (debugged name n got w e))))
  options-Undefines _ _ n q w (told {c} {got = g} {cs} {gots} k ks) s e h =
      rw (few n (omega arith), options)
        (Returns-on (λ m u. (m ≡ n + wrong_of c) × OnlyIo (put c w) u) Undefines
          (take_option name n g w) _ (take_option-put f name n c g w k s.no_debug s.errprint_is)
          λ m u (i, o).
            options-Undefines cs gots m q u ks (OnlyIo-Steady o (put-Steady c s))
              (ap (λ (x : World). x.dbgprint_fh) o.same ∙ put-dbgprint c w ∙ e) (omega arith))

-- Behind options that are in order, with ten wrong ones among them at most, --debug and one more
-- option, whichever it is, run into undefined behaviour: a message is printed to the stream for
-- debugging output, which is NULL. Debugging is off before.
pub main_program-Undefines :
    (env : Env) (argv : List Bytes) (cs : List Choice) (gots rest : List Got) (arg : Bytes)
    (opt : ℕ) (text : Bytes) (got : Got) (w : World)
    → env.gots ≡ gots ++ debug_got arg opt text ∷ got ∷ rest
    → AreTold cs gots
    → wrongs cs ≤ 10
    → w.debug ≡ false
    → w.dbgprint_fh ≡ none
    → Undefines (main_program env argv w)
unfolding main_program
main_program-Undefines env argv cs gots rest arg opt text got w e ts few_wrong d no_fh =
    let name = percent_s (sname (get_elem? argv 0)) in
    let v = set_eprint_fh env.out env.err w in
    let (f, s) = set_eprint_fh-Steady env w d in
    Undefines-first (options name 0 env.gots v) _ (
      subst (λ g. Undefines (options name 0 g v)) (sym e)
        (options-Undefines f name arg opt text got rest cs gots 0 w.requests v ts s
          (unfold set_eprint_fh in no_fh) (omega arith)))
