-- ===== src/World/Returns.antt =====
-- Total correctness of an action: it returns, and what it returns satisfies a predicate.
use errmark.Prelude.{Bool, true, false, ◌≡◌, sym, subst, if◌then◌else◌}
use errmark.World.{World, Outcome, M, ret, exit, abort, undefined, wait, bind}

abbrev pub Returns {ℓ} : {A : Type ℓ} → Outcome A → (A → World → Type 0) → Type 0
Returns (ret a w) P = P a w
Returns (exit code w) P = ⊥
Returns (abort w) P = ⊥
Returns (undefined w) P = ⊥
Returns (wait w) P = ⊥

pub Returns-bind {ℓ κ} :
    {A : Type ℓ} {B : Type κ} (P : A → World → Type 0) (Q : B → World → Type 0) (o : Outcome A)
    (f : A → M B)
    → Returns o P
    → ((a : A) (w : World) → P a w → Returns (f a w) Q)
    → Returns (bind o f) Q
Returns-bind P Q (ret a w) f h k = k a w h
Returns-bind P Q (exit code w) f h k = absurd h
Returns-bind P Q (abort w) f h k = absurd h
Returns-bind P Q (undefined w) f h k = absurd h
Returns-bind P Q (wait w) f h k = absurd h

-- What is asked of an action behind one that returns may be anything.
pub Returns-on {ℓ κ} :
    {A : Type ℓ} {B : Type κ} (P : A → World → Type 0) (T : Outcome B → Type 0) (o : Outcome A)
    (f : A → M B)
    → Returns o P
    → ((a : A) (w : World) → P a w → T (f a w))
    → T (bind o f)
Returns-on P T (ret a w) f h k = k a w h
Returns-on P T (exit code w) f h k = absurd h
Returns-on P T (abort w) f h k = absurd h
Returns-on P T (undefined w) f h k = absurd h
Returns-on P T (wait w) f h k = absurd h

pub Returns-map {ℓ} :
    {A : Type ℓ} (P Q : A → World → Type 0) (o : Outcome A)
    → Returns o P
    → ((a : A) (w : World) → P a w → Q a w)
    → Returns o Q
Returns-map P Q (ret a w) h k = k a w h
Returns-map P Q (exit code w) h k = absurd h
Returns-map P Q (abort w) h k = absurd h
Returns-map P Q (undefined w) h k = absurd h
Returns-map P Q (wait w) h k = absurd h

pub Returns-both {ℓ} :
    {A : Type ℓ} (P Q : A → World → Type 0) (o : Outcome A)
    → Returns o P
    → Returns o Q
    → Returns o (λ a w. P a w × Q a w)
Returns-both P Q (ret a w) h k = (h, k)
Returns-both P Q (exit code w) h k = absurd h
Returns-both P Q (abort w) h k = absurd h
Returns-both P Q (undefined w) h k = absurd h
Returns-both P Q (wait w) h k = absurd h

-- A test that is decided.
pub Returns-then {ℓ} :
    {A : Type ℓ} (Q : A → World → Type 0) (b : Bool) (x y : M A) (w : World)
    → b ≡ true
    → Returns (x w) Q
    → Returns ((if b then x else y) w) Q
Returns-then Q b x y w h r = subst (λ c. Returns ((if c then x else y) w) Q) (sym h) r

pub Returns-else {ℓ} :
    {A : Type ℓ} (Q : A → World → Type 0) (b : Bool) (x y : M A) (w : World)
    → b ≡ false
    → Returns (y w) Q
    → Returns ((if b then x else y) w) Q
Returns-else Q b x y w h r = subst (λ c. Returns ((if c then x else y) w) Q) (sym h) r
