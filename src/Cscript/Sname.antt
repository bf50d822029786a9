-- ===== src/Cscript/Sname.antt =====
-- src/libcscript/sname.c. A path is a C string or NULL; the result points into it.
use errmark.Prelude.{
  ℕ, Bool, true, false, Bool-cases, inl, inr, Option, none, some, [], ◌∷◌, ◌++◌, Bytes, codes,
  lacks, ◌==◌, ◌≡◌, refl, ap, if◌then◌else◌, arith,
}

-- The loop: `s` and `p` point into the path, and `prevc` is the character before `p`, or 0.
unfoldable pub sname_from : Bytes → ℕ → Bytes → Bytes
sname_from s prevc [] = s
sname_from s prevc (c ∷ p) = sname_from (if prevc == b'/' then c ∷ p else s) c p

unfoldable pub sname : Option Bytes → Option Bytes
unfolding sname_from
sname none = none
sname (some path) = some (sname_from path 0 path)

sname_tests :
    (sname (some (codes "/usr/bin/ls")) ≡ some (codes "ls"))
    × (sname (some (codes "ls")) ≡ some (codes "ls"))
    × (sname (some (codes "bin/")) ≡ some (codes "bin/"))
    × (sname (some (codes "usr/bin/")) ≡ some (codes "bin/"))
    × (sname (some (codes "bin//")) ≡ some (codes "/"))
unfolding sname
sname_tests = (refl, refl, refl, refl, refl)

-- A slash at the end, or none.
abbrev pub trailing : Bool → Bytes
trailing true = b'/' ∷ []
trailing false = []

-- Over characters none of which is a slash, but for one at the end, `s` stays.
stays :
    (s : Bytes) (prevc : ℕ) (p : Bytes) (slash : Bool)
    → (prevc == b'/') ≡ false
    → lacks b'/' p ≡ true
    → sname_from s prevc (p ++ trailing slash) ≡ s
unfolding sname_from
stays s prevc [] true h l = ground arith
stays s prevc [] false h l = refl
stays s prevc (c ∷ p) slash h l = elim (Bool-cases (c == b'/')) [
  | inl e ↦ ground arith
  | inr ne ↦ ground (arith, stays s c p slash)
]

-- Past the last slash with something behind it, `s` is what is behind it.
behind_slash :
    (dir : Bytes) (s : Bytes) (prevc c : ℕ) (base : Bytes) (slash : Bool)
    → lacks b'/' (c ∷ base) ≡ true
    → sname_from s prevc (dir ++ b'/' ∷ c ∷ (base ++ trailing slash)) ≡ c ∷ (base ++ trailing slash)
unfolding sname_from
behind_slash [] s prevc c base slash l = elim (Bool-cases (c == b'/')) [
  | inl e ↦ ground arith
  | inr ne ↦ ground (arith, stays (c ∷ (base ++ trailing slash)) c base slash)
]
behind_slash (d ∷ dir) s prevc c base slash l = behind_slash dir _ d c base slash l

-- The name without a directory, or behind one.
abbrev pub within : Option Bytes → Bytes → Bytes
within none name = name
within (some dir) name = dir ++ b'/' ∷ name

-- Of a path that ends in a component without slashes, and then perhaps one slash, `sname` gives
-- that component with its slash, whether a directory stands in front of it or not.
pub sname-within :
    (dir : Option Bytes) (c : ℕ) (base : Bytes) (slash : Bool)
    → lacks b'/' (c ∷ base) ≡ true
    → sname (some (within dir (c ∷ (base ++ trailing slash)))) ≡ some (c ∷ (base ++ trailing slash))
unfolding sname
sname-within none c base slash l =
    ap some (stays (c ∷ (base ++ trailing slash)) 0 (c ∷ base) slash refl l)
sname-within (some d) c base slash l = ap some (behind_slash d _ 0 c base slash l)
