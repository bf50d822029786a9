-- ===== src/Main/Exit.antt =====
-- A whole run of errmark, from `main` to exit().
use errmark.Prelude.{
  ℕ, ◌/◌, ◌==◌, ◌||◌, Bool, true, false, Option, none, some, List, [], ◌∷◌, ◌++◌, Bytes, ◌≡◌, refl,
  sym, ap, subst, ◌∙◌, get_elem?, length,
}
use errmark.World.{World, Outcome, M, ret, exit, abort, undefined, wait, bind, on_cmd, when}
use errmark.World.Returns.{Returns}
use errmark.Cscript.Sname.{sname}
use errmark.Cscript.PrintFh.{set_eprint_fh}
use errmark.Writes.{Stop}
use errmark.Run.{ends, run_parent, percent_s}
use errmark.Run.PassOn.{Allocates}
use errmark.Run.Script.{Event, stops_of, AreEvents}
use errmark.Run.Leaves.{IsQuiet, Leaves, last_end}
use errmark.Run.Terminal.{run_parent-transcript}
use errmark.Main.{Env, options, fill_cmd, copy_to, open_copy, launch, main_program}

-- Total correctness of a program that ends by exit(code).
abbrev pub Exits {ℓ} : {A : Type ℓ} → Outcome A → (ℕ → World → Type 0) → Type 0
Exits (ret a w) P = ⊥
Exits (exit code w) P = P code w
Exits (abort w) P = ⊥
Exits (undefined w) P = ⊥
Exits (wait w) P = ⊥

pub Exits-bind {ℓ κ} :
    {A : Type ℓ} {B : Type κ} (P : A → World → Type 0) (Q : ℕ → World → Type 0) (o : Outcome A)
    (f : A → M B)
    → Returns o P
    → ((a : A) (w : World) → P a w → Exits (f a w) Q)
    → Exits (bind o f) Q
Exits-bind P Q (ret a w) f h k = k a w h
Exits-bind P Q (exit code w) f h k = absurd h
Exits-bind P Q (abort w) f h k = absurd h
Exits-bind P Q (undefined w) f h k = absurd h
Exits-bind P Q (wait w) f h k = absurd h

pub Exits-map {ℓ} :
    {A : Type ℓ} (P Q : ℕ → World → Type 0) (o : Outcome A)
    → Exits o P
    → ((code : ℕ) (w : World) → P code w → Q code w)
    → Exits o Q
Exits-map P Q (ret a w) h k = absurd h
Exits-map P Q (exit code w) h k = k code w h
Exits-map P Q (abort w) h k = absurd h
Exits-map P Q (undefined w) h k = absurd h
Exits-map P Q (wait w) h k = absurd h

-- What follows an exit is not reached.
pub Exits-first {ℓ κ} :
    {A : Type ℓ} {B : Type κ} (Q : ℕ → World → Type 0) (o : Outcome A) (f : A → M B)
    → Exits o Q
    → Exits (bind o f) Q
Exits-first Q (ret a w) f h = absurd h
Exits-first Q (exit code w) f h = h
Exits-first Q (abort w) f h = absurd h
Exits-first Q (undefined w) f h = absurd h
Exits-first Q (wait w) f h = absurd h

pub Exits-after {ℓ κ} :
    {A : Type ℓ} {B : Type κ} (Q : ℕ → World → Type 0) {o : Outcome A} (f : A → M B) {a : A}
    {w : World}
    → o ≡ ret a w
    → Exits (f a w) Q
    → Exits (bind o f) Q
Exits-after Q f q h = subst (λ p. Exits (bind p f) Q) (sym q) h

when_off : (b : Bool) (m : M (Unit {0})) (w : World) → b ≡ false → when b m w ≡ ret tt w
when_off b m w h = ap (λ c. when c m w) h

abbrev pub is_some : Option Bytes → Bool
is_some none = false
is_some (some text) = true

abbrev with_copy : Bool → World → World
with_copy b w = on_cmd (λ c. record c { copy_fh = b }) w

-- The world in which the program is run: there is a copy just where --copy was given.
abbrev pub ready : Env → List Bytes → World → World
unfolding fill_cmd
ready env argv w = with_copy (is_some w.cmd.copy_fname) (fill_cmd argv env.optind w)

copy_to-opens :
    (b : Bool) (o : Option Bytes) (w : World)
    → b ≡ true
    → copy_to b o w ≡ ret tt (with_copy (is_some o) w)
unfolding copy_to
copy_to-opens b none w h = refl
copy_to-opens b (some fname) w h = rw h refl

open_copy-opens :
    (b : Bool) (w : World)
    → b ≡ true
    → open_copy b w ≡ ret tt (with_copy (is_some w.cmd.copy_fname) w)
unfolding open_copy
open_copy-opens b w h = copy_to-opens b w.cmd.copy_fname w h

pub ready-IsQuiet :
    (env : Env) (argv : List Bytes) (w : World)
    → w.debug ≡ false
    → w.verbose ≡ false
    → IsQuiet (ready env argv w)
unfolding fill_cmd
ready-IsQuiet env argv w d v = record {
  no_debug = d;
  no_cmd_debug = d;
  no_verbose = ap (λ b. b || w.debug) v ∙ d;
}

-- The run decides how errmark ends.
pub launch-by :
    (env : Env) (argv : List Bytes) (es : List Event) (k : ℕ) (more : Bytes) (w : World)
    → w.debug ≡ false
    → w.verbose ≡ false
    → (length argv == 0) ≡ false
    → env.opens ≡ true
    → Returns
        (run_parent env.pid env.stops env.junk (ready env argv w))
        (λ rc w'. (rc ≡ k) × Leaves (ready env argv w) es more w')
    → Exits (launch env argv w) (λ code w'. (code ≡ k / 256) × Leaves (ready env argv w) es more w')
unfolding launch fill_cmd
launch-by env argv es k more w d v some_word opens run =
    let u = fill_cmd argv env.optind w in
    let r = ready env argv w in
    Exits-after _ _ (when_off (length argv == 0) _ u some_word) (
      Exits-after _ _ (when_off u.verbose _ u (ap (λ b. b || w.debug) v ∙ d)) (
        Exits-after _ _ (open_copy-opens env.opens u opens) (
          Exits-bind (λ rc w'. (rc ≡ k) × Leaves r es more w') _
            (run_parent env.pid env.stops env.junk r) _ run
            λ rc w' (q, h).
              (ap (λ n. n / 256) q, record { shown_is = h.shown_is; copied_is = h.copied_is }))))

launch-Exits :
    (env : Env) (argv : List Bytes) (es : List Event) (last : Stop) (w : World)
    → w.debug ≡ false
    → w.verbose ≡ false
    → Allocates w.libc
    → (length argv == 0) ≡ false
    → env.opens ≡ true
    → AreEvents es
    → ends last.status ≡ true
    → env.stops ≡ stops_of es ++ last ∷ []
    → Exits (launch env argv w) (λ code w'.
      (code ≡ last.status / 256)
      × Leaves
          (ready env argv w)
          es
          (last_end (ready env argv w) es ++ last_end (ready env argv w) es)
          w')
unfolding fill_cmd
launch-Exits env argv es last w d v m some_word opens ev e stops =
    let r = ready env argv w in
    let more = last_end r es ++ last_end r es in
    launch-by env argv es last.status more w d v some_word opens (
      subst
        (λ k.
          Returns (run_parent env.pid k env.junk r)
            (λ rc w'. (rc ≡ last.status) × Leaves r es more w'))
        (sym stops)
        (run_parent-transcript r (ready-IsQuiet env argv w d v) m env.pid es ev last e env.junk))

-- Where the options were in order and asked for no messages, a copy that is asked for can be
-- opened, malloc gives blocks of the size asked for, and the program's writes are readable, errmark
-- exits with the bits from 8 on of the status that ends the run, with the transcript shown, the end
-- mark of the last run shown twice more, and the errors copied.
pub main_program-Exits :
    (env : Env) (argv : List Bytes) (es : List Event) (last : Stop) (w w1 : World)
    → options (percent_s (sname (get_elem? argv 0))) 0 env.gots (set_eprint_fh env.out env.err w)
      ≡ ret 0 w1
    → w1.debug ≡ false
    → w1.verbose ≡ false
    → Allocates w1.libc
    → (length argv == 0) ≡ false
    → env.opens ≡ true
    → AreEvents es
    → ends last.status ≡ true
    → env.stops ≡ stops_of es ++ last ∷ []
    → Exits (main_program env argv w) (λ code w'.
      (code ≡ last.status / 256)
      × Leaves
          (ready env argv w1)
          es
          (last_end (ready env argv w1) es ++ last_end (ready env argv w1) es)
          w')
unfolding main_program
main_program-Exits env argv es last w w1 opts d v m some_word opens ev e stops =
    Exits-after _ _ opts (launch-Exits env argv es last w1 d v m some_word opens ev e stops)
