-- ===== src/Main/Rejects.antt =====
-- What errmark makes of its command line, up to its exit.
use errmark.Prelude.{
  ◌+◌, ◌<◌, ◌==◌, Bool-cases, false, some, List, Bytes, get_elem?, leb, ◌≡◌, refl, ap, ◌∙◌, inl,
  inr, arith,
}
use errmark.Stdio.{Stream}
use errmark.World.{World, Request, exit_with, ◌>>◌}
use errmark.World.Returns.{Returns, Returns-bind, Returns-map}
use errmark.World.OnlyIo.{OnlyIo, OnlyIo-trans, eprint-OnlyIo}
use errmark.Cscript.Sname.{sname}
use errmark.Cscript.PrintFh.{set_eprint_fh, set_eprint_fh-some}
use errmark.Options.{usage, usage_text}
use errmark.Run.{percent_s}
use errmark.Main.{Env, options, launch, main_program}
use errmark.Main.Exit.{Exits, Exits-bind, Exits-first}
use errmark.Main.Choices.{Choice}
use errmark.Main.Settings.{
  AreTold, settings, wrongs, Steady, OnlyIo-Steady, settings-Steady, counted, stopped,
}

pub usage-OnlyIo :
    (f : Stream) (name : Bytes) (w : World)
    → w.errprint_fh ≡ some f
    → Returns (usage name w) (λ _. OnlyIo w)
unfolding usage
usage-OnlyIo f name w h =
    Returns-bind (λ _. OnlyIo w) (λ _. OnlyIo w) _ _ (eprint-OnlyIo _ w h)
      λ _ u k.
        Returns-map (λ _. OnlyIo u) (λ _. OnlyIo w) _
          (eprint-OnlyIo usage_text u (ap (λ (x : World). x.errprint_fh) k.same ∙ h))
          λ _ v k'. OnlyIo-trans k k'

pub set_eprint_fh-Steady :
    (env : Env) (w : World)
    → w.debug ≡ false
    → (f : Stream) × Steady f w.requests (set_eprint_fh env.out env.err w)
set_eprint_fh-Steady env w d =
    let (f, e) = set_eprint_fh-some env.out env.err w in
    (
      f,
      record {
        no_debug = (unfold set_eprint_fh in d);
        errprint_is = e;
        requests_are = (unfold set_eprint_fh in refl);
      },
    )

-- with a wrong option, the count is not 0
options-wrong :
    (f : Stream) (q : List Request) (name : Bytes) (env : Env) (cs : List Choice) (w : World)
    → AreTold cs env.gots
    → Steady f q w
    → 0 < wrongs cs
    → Returns (options name 0 env.gots w) (λ m u. ((m == 0) ≡ false) × Steady f q u)
options-wrong f q name env cs w t s h = elim (Bool-cases (leb (wrongs cs) 10)) [
  | inl few ↦
      Returns-map (λ m u. (m ≡ 0 + wrongs cs) × OnlyIo (settings cs w) u) _ _
        (counted f name cs env.gots 0 q w t s (ground arith))
        λ m u (e, k). (ground arith, OnlyIo-Steady k (settings-Steady cs s))
  | inr many ↦
      Returns-map (λ m u. (m ≡ 11) × Steady f q u) _ _
        (stopped f name cs env.gots 0 q w t s (omega arith) (ground arith))
        λ m u (e, k). (ground arith, k)
]

-- Where at least one option is wrong, and the others are --verbose, colors by their names, marks
-- with both strings in ASCII, and names for the copy, errmark exits with 1, and makes no request to
-- ptrace(2), however many wrong options there are. Debugging is off before.
pub main_program-rejects :
    (env : Env) (argv : List Bytes) (cs : List Choice) (w : World)
    → AreTold cs env.gots
    → w.debug ≡ false
    → 0 < wrongs cs
    → Exits (main_program env argv w) (λ code u. (code ≡ 1) × (u.requests ≡ w.requests))
unfolding main_program
main_program-rejects env argv cs w t d h =
    let name = percent_s (sname (get_elem? argv 0)) in
    let v = set_eprint_fh env.out env.err w in
    let (f, s) = set_eprint_fh-Steady env w d in
    Exits-bind (λ m u. ((m == 0) ≡ false) × Steady f w.requests u) _ (options name 0 env.gots v) _
      (options-wrong f w.requests name env cs v t s h)
      λ m u (nonzero, k).
        let said : Exits ((usage name >> exit_with {A = Unit {0}} 1) u)
            (λ code x. (code ≡ 1) × (x.requests ≡ w.requests)) =
          Exits-bind (λ _. OnlyIo u) _ (usage name u) (λ _. exit_with 1)
            (usage-OnlyIo f name u k.errprint_is)
            λ _ x o. (refl, (OnlyIo-Steady o k).requests_are) in
        rw nonzero
          (Exits-first _ ((usage name >> exit_with {A = Unit {0}} 1) u) (λ _. launch env argv) said)
