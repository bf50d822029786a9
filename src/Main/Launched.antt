-- ===== src/Main/Launched.antt =====
-- The end of errmark from the end of its options on, whatever the kernel, the files and malloc answer.
use errmark.Prelude.{
  arith, ℕ, ◌/◌, ◌==◌, Bool, true, false, Option, none, some, List, [], ◌∷◌, ◌++◌, Bytes, codes,
  drop, zero, suc, length, right_of, ◌≡◌, refl, sym, ap, subst, ◌∙◌,
}
use errmark.Stdio.{Stream}
use errmark.World.{World, Libc, M, exit_with, eprint, when, on_cmd, ◌>>◌}
use errmark.World.Returns.{Returns, Returns-map}
use errmark.World.Keeps.{Allowed, Meets, Meets-bind, Meets-map, Meets-allow, Returns-Meets}
use errmark.World.OnlyIo.{OnlyIo, OnlyIo-refl, when-OnlyIo, eprint-OnlyIo}
use errmark.Cscript.Show.{fshow_str_array}
use errmark.Cscript.Listing.{all_ascii, fshow_str_array-listing}
use errmark.Run.{run_parent}
use errmark.Run.Total.{IsLeft, never_ends, some_harm, run_ends, run_parent-Ends}
use errmark.Main.{Env, fill_cmd, copy_to, open_copy, launch}

-- The codes with which errmark may exit behind its options, each with its reason.
pub data ExitsWith (env : Env) (libc : Libc) : ℕ → Type 0 where
  no_copy : env.opens ≡ false → ExitsWith env libc 2
  no_memory : (n : ℕ) → libc.malloc n ≡ none → ExitsWith env libc 8
  run_ended : (rc : ℕ) → IsLeft env.stops rc → ExitsWith env libc (rc / 256)

-- The ends that it may have there.
abbrev pub launch_ends : Env → World → Allowed
launch_ends env w = record {
  exits = ExitsWith env w.libc;
  aborts = some_harm env.stops ≡ true;
  undefines = ⊥;
  waits = never_ends env.stops ≡ true;
}

all_ascii-drop : (n : ℕ) (av : List Bytes) → all_ascii av ≡ true → all_ascii (drop n av) ≡ true
all_ascii-drop zero av h = h
all_ascii-drop (suc n) [] h = refl
all_ascii-drop (suc n) (s ∷ av) h = all_ascii-drop n av (right_of _ (all_ascii av) h)

-- What is needed of the state up to the run.
pub record IsReady (f : Stream) (libc : Libc) (w : World) : Type 0 where
  pub errprint_is : w.errprint_fh ≡ some f
  pub libc_is : w.libc ≡ libc

pub OnlyIo-IsReady :
    {f : Stream} {libc : Libc} {w u : World} → OnlyIo w u → IsReady f libc w → IsReady f libc u
OnlyIo-IsReady k h = record {
  errprint_is = ap (λ (x : World). x.errprint_fh) k.same ∙ h.errprint_is;
  libc_is = ap (λ (x : World). x.libc) k.same ∙ h.libc_is;
}

fill_cmd-IsReady :
    {f : Stream} {libc : Libc} {w : World} (argv : List Bytes) (optind : ℕ)
    → IsReady f libc w
    → IsReady f libc (fill_cmd argv optind w)
unfolding fill_cmd
fill_cmd-IsReady argv optind h = record { errprint_is = h.errprint_is; libc_is = h.libc_is }

-- Behind an action that may not return, or a test that skips it.
pub guarded {ℓ} :
    {B : Type ℓ} (a : Allowed) (Q : B → World → Type 0) (b : Bool) (m : M (Unit {0})) (k : M B)
    (w : World)
    → (b ≡ true → Meets a (m w) (λ _ _. ⊥))
    → (b ≡ false → Meets a (k w) Q)
    → Meets a ((when b m >> k) w) Q
guarded a Q true m k w stops goes =
    Meets-bind a (λ _ _. ⊥) Q (m w) (λ _. k) (stops refl) λ _ _ h. absurd h
guarded a Q false m k w stops goes = goes refl

module _ (f : Stream) (env : Env) (argv : List Bytes) (w0 : World) where
  listed :
      (av : List Bytes) (w : World)
      → all_ascii av ≡ true
      → Returns (fshow_str_array (some Stream.stderr) av w) (λ _. OnlyIo w)
  listed av w h =
      Returns-map _ (λ _. OnlyIo w) (fshow_str_array (some Stream.stderr) av w)
        (fshow_str_array-listing av w h)
        λ _ u said. record {
          same =
              said.same
              ∙ ap (λ io. record w { io = io }) (sym (ap (λ (x : World). x.io) said.same));
        }

  opened :
      (b : Bool) (o : Option Bytes) (w : World)
      → env.opens ≡ b
      → IsReady f w0.libc w
      → Meets (launch_ends env w0) (copy_to b o w) (λ _. IsReady f w0.libc)
  unfolding copy_to
  opened b none w e r = record { errprint_is = r.errprint_is; libc_is = r.libc_is }
  opened true (some fname) w e r = record { errprint_is = r.errprint_is; libc_is = r.libc_is }
  opened false (some fname) w e r =
      let a = launch_ends env w0 in
      let w' = on_cmd (λ c. record c { copy_fh = false }) w in
      let text = codes "open('" ++ (fname ++ codes "', \"w\") failed.\n") in
      Meets-bind a (λ _. OnlyIo w') (λ _. IsReady f w0.libc) (eprint text w')
        (λ _. exit_with {A = Unit {0}} 2)
        (Returns-Meets a (λ _. OnlyIo w') (eprint text w') (eprint-OnlyIo text w' r.errprint_is))
        λ _ u k. no_copy e

  run_ends_it :
      (w : World)
      → IsReady f w0.libc w
      → Meets
          (launch_ends env w0)
          (run_parent env.pid env.stops env.junk w)
          (λ rc _. IsLeft env.stops rc)
  run_ends_it w r =
      let starved : (code : ℕ) → (run_ends w env.stops).exits code → ExitsWith env w0.libc code =
        λ code h.
          subst (ExitsWith env w0.libc) (sym h.0)
            (no_memory h.1.0 (sym (ap (λ (k : Libc). k.malloc h.1.0) r.libc_is) ∙ h.1.1)) in
      Meets-allow (run_ends w env.stops) (launch_ends env w0) (λ rc _. IsLeft env.stops rc)
        (run_parent env.pid env.stops env.junk w) (λ code h. starved code h) (λ h. h) (λ h. h)
        (λ h. h)
        (Meets-map (run_ends w env.stops) _ (λ rc _. IsLeft env.stops rc)
          (run_parent env.pid env.stops env.junk w)
          (run_parent-Ends f w r.errprint_is env.pid env.stops env.junk) λ rc u h. h.0)

  pub launch-Ends :
      (w : World)
      → IsReady f w0.libc w
      → (length argv == 0) ≡ false
      → all_ascii argv ≡ true
      → Meets (launch_ends env w0) (launch env argv w) (λ _ _. ⊥)
  unfolding launch open_copy
  launch-Ends w r words h =
      let a = launch_ends env w0 in
      let v = fill_cmd argv env.optind w in
      let rv = fill_cmd-IsReady argv env.optind r in
      let args = v.cmd.argv in
      let listing = fshow_str_array (some Stream.stderr) args in
      guarded a (λ _ _. ⊥) (length argv == 0) _ _ v (λ empty. absurd (ground arith))
        λ some.
          Meets-bind a (λ _. OnlyIo v) (λ _ _. ⊥) (when v.verbose listing v) _
            (Returns-Meets a (λ _. OnlyIo v) (when v.verbose listing v)
              (when-OnlyIo v.verbose listing v v (OnlyIo-refl v)
                (listed args v (unfold fill_cmd in all_ascii-drop env.optind argv h))))
            λ _ u k.
              Meets-bind a (λ _. IsReady f w0.libc) (λ _ _. ⊥)
                (copy_to env.opens u.cmd.copy_fname u) _
                (opened env.opens u.cmd.copy_fname u refl (OnlyIo-IsReady k rv))
                λ _ x rx.
                  Meets-bind a (λ rc _. IsLeft env.stops rc) (λ _ _. ⊥)
                    (run_parent env.pid env.stops env.junk x) _ (run_ends_it x rx)
                    λ rc y left. run_ended rc left
