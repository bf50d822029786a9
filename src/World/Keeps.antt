-- ===== src/World/Keeps.antt =====
-- What an action returns, if it does, satisfies a predicate; and which other ends there may be.
use errmark.Prelude.{ℕ, ◌≡◌, sym, subst, Bool, true, false, if◌then◌else◌}
use errmark.World.{World, Outcome, M, ret, exit, abort, undefined, wait, bind, when}
use errmark.World.Returns.{Returns}

-- What may happen to an action that does not return.
pub record Allowed : Type 1 where
  pub exits : ℕ → Type 0
  pub aborts : Type 0
  pub undefines : Type 0
  pub waits : Type 0

-- What is returned satisfies `P`, and any other end is one of those allowed.
abbrev pub Meets {ℓ} : {A : Type ℓ} → Allowed → Outcome A → (A → World → Type 0) → Type 0
Meets a (ret x w) P = P x w
Meets a (exit code w) P = a.exits code
Meets a (abort w) P = a.aborts
Meets a (undefined w) P = a.undefines
Meets a (wait w) P = a.waits

pub Meets-bind {ℓ κ} :
    {A : Type ℓ} {B : Type κ} (a : Allowed) (P : A → World → Type 0) (Q : B → World → Type 0)
    (o : Outcome A) (f : A → M B)
    → Meets a o P
    → ((x : A) (w : World) → P x w → Meets a (f x w) Q)
    → Meets a (bind o f) Q
Meets-bind a P Q (ret x w) f h k = k x w h
Meets-bind a P Q (exit code w) f h k = h
Meets-bind a P Q (abort w) f h k = h
Meets-bind a P Q (undefined w) f h k = h
Meets-bind a P Q (wait w) f h k = h

pub Meets-map {ℓ} :
    {A : Type ℓ} (a : Allowed) (P Q : A → World → Type 0) (o : Outcome A)
    → Meets a o P
    → ((x : A) (w : World) → P x w → Q x w)
    → Meets a o Q
Meets-map a P Q (ret x w) h k = k x w h
Meets-map a P Q (exit code w) h k = h
Meets-map a P Q (abort w) h k = h
Meets-map a P Q (undefined w) h k = h
Meets-map a P Q (wait w) h k = h

-- More may be allowed.
pub Meets-allow {ℓ} :
    {A : Type ℓ} (a b : Allowed) (P : A → World → Type 0) (o : Outcome A)
    → ((code : ℕ) → a.exits code → b.exits code)
    → (a.aborts → b.aborts)
    → (a.undefines → b.undefines)
    → (a.waits → b.waits)
    → Meets a o P
    → Meets b o P
Meets-allow a b P (ret x w) exits aborts undefines waits h = h
Meets-allow a b P (exit code w) exits aborts undefines waits h = exits code h
Meets-allow a b P (abort w) exits aborts undefines waits h = aborts h
Meets-allow a b P (undefined w) exits aborts undefines waits h = undefines h
Meets-allow a b P (wait w) exits aborts undefines waits h = waits h

abbrev pub anything : Allowed
anything = record {
  exits = λ code. Unit {0};
  aborts = Unit {0};
  undefines = Unit {0};
  waits = Unit {0};
}

abbrev pub Keeps {ℓ} : {A : Type ℓ} → Outcome A → (A → World → Type 0) → Type 0
Keeps = Meets anything

pub Keeps-bind {ℓ κ} :
    {A : Type ℓ} {B : Type κ} (P : A → World → Type 0) (Q : B → World → Type 0) (o : Outcome A)
    (f : A → M B)
    → Keeps o P
    → ((a : A) (w : World) → P a w → Keeps (f a w) Q)
    → Keeps (bind o f) Q
Keeps-bind = Meets-bind anything

pub Keeps-both {ℓ} :
    {A : Type ℓ} (P Q : A → World → Type 0) (o : Outcome A)
    → Keeps o P
    → Keeps o Q
    → Keeps o (λ x w. P x w × Q x w)
Keeps-both P Q (ret x w) h k = (h, k)
Keeps-both P Q (exit code w) h k = tt
Keeps-both P Q (abort w) h k = tt
Keeps-both P Q (undefined w) h k = tt
Keeps-both P Q (wait w) h k = tt

-- A test that is decided.
pub Keeps-then {ℓ} :
    {A : Type ℓ} (Q : A → World → Type 0) (b : Bool) (x y : M A) (w : World)
    → b ≡ true
    → Keeps (x w) Q
    → Keeps ((if b then x else y) w) Q
Keeps-then Q b x y w h r = subst (λ c. Keeps ((if c then x else y) w) Q) (sym h) r

pub Keeps-else {ℓ} :
    {A : Type ℓ} (Q : A → World → Type 0) (b : Bool) (x y : M A) (w : World)
    → b ≡ false
    → Keeps (y w) Q
    → Keeps ((if b then x else y) w) Q
Keeps-else Q b x y w h r = subst (λ c. Keeps ((if c then x else y) w) Q) (sym h) r

pub Meets-when :
    (a : Allowed) (b : Bool) (m : M (Unit {0})) (P : World → Type 0) (w : World)
    → b ≡ false
    → P w
    → Meets a (when b m w) (λ _. P)
Meets-when a b m P w h p = subst (λ c. Meets a (when c m w) (λ _. P)) (sym h) p

pub Meets-either {ℓ} :
    {A : Type ℓ} (a : Allowed) (b : Bool) (x y : Outcome A) (Q : A → World → Type 0)
    → Meets a x Q
    → Meets a y Q
    → Meets a (if b then x else y) Q
Meets-either a true x y Q h k = h
Meets-either a false x y Q h k = k

-- An action of which nothing is asked.
pub Keeps-any {ℓ} : {A : Type ℓ} (o : Outcome A) → Keeps o (λ _ _. Unit {0})
Keeps-any (ret a w) = tt
Keeps-any (exit code w) = tt
Keeps-any (abort w) = tt
Keeps-any (undefined w) = tt
Keeps-any (wait w) = tt

pub Returns-Meets {ℓ} :
    {A : Type ℓ} (a : Allowed) (P : A → World → Type 0) (o : Outcome A) → Returns o P → Meets a o P
Returns-Meets a P (ret x w) h = h
Returns-Meets a P (exit code w) h = absurd h
Returns-Meets a P (abort w) h = absurd h
Returns-Meets a P (undefined w) h = absurd h
Returns-Meets a P (wait w) h = absurd h

-- With total correctness, what is kept is reached.
pub Keeps→Returns {ℓ} :
    {A : Type ℓ} (P Q : A → World → Type 0) (o : Outcome A) → Returns o P → Keeps o Q → Returns o Q
Keeps→Returns P Q (ret a w) r h = h
Keeps→Returns P Q (exit code w) r h = absurd r
Keeps→Returns P Q (abort w) r h = absurd r
Keeps→Returns P Q (undefined w) r h = absurd r
Keeps→Returns P Q (wait w) r h = absurd r
