-- ===== src/Cscript/Named.antt =====
-- The component of a path that `sname` gives, for every path.
use errmark.Prelude.{
  ℕ, Bool, true, false, Bool-cases, inl, inr, some, [], ◌∷◌, ◌++◌, Bytes, not, ◌&&◌, ◌==◌, left_of,
  right_of, negated, ◌≡◌, refl, sym, ap, ◌∙◌, subst, arith,
}
use errmark.Cscript.Sname.{sname_from, sname}

-- There is no slash but at the end.
abbrev pub is_component : Bytes → Bool
is_component [] = true
is_component (c ∷ []) = true
is_component (c ∷ d ∷ s) = not (c == b'/') && is_component (d ∷ s)

-- The last component of a path, with a slash that stands behind it: all of the path, or what follows
-- a slash.
pub data NameOf : Bytes → Bytes → Type 0 where
  whole : (name : Bytes) → is_component name ≡ true → NameOf name name
  behind :
      (dir : Bytes) (c : ℕ) (name : Bytes)
      → is_component (c ∷ name) ≡ true
      → NameOf (dir ++ b'/' ∷ c ∷ name) (c ∷ name)

name_stays :
    (s : Bytes) (prevc : ℕ) (p : Bytes)
    → (prevc == b'/') ≡ false
    → is_component p ≡ true
    → sname_from s prevc p ≡ s
unfolding sname_from
name_stays s prevc [] h l = refl
name_stays s prevc (c ∷ []) h l = rw h refl
name_stays s prevc (c ∷ d ∷ p) h l = rw h (
    name_stays s c (d ∷ p)
      (negated (c == b'/') (left_of (not (c == b'/')) (is_component (d ∷ p)) l))
      (right_of (not (c == b'/')) (is_component (d ∷ p)) l))

name_begins :
    (c : ℕ) (name : Bytes)
    → is_component (c ∷ name) ≡ true
    → sname_from (c ∷ name) c name ≡ c ∷ name
unfolding sname_from
name_begins c [] l = refl
name_begins c (d ∷ name) l =
    name_stays (c ∷ d ∷ name) c (d ∷ name)
      (negated (c == b'/') (left_of (not (c == b'/')) (is_component (d ∷ name)) l))
      (right_of (not (c == b'/')) (is_component (d ∷ name)) l)

name_behind :
    (dir s : Bytes) (prevc c : ℕ) (name : Bytes)
    → is_component (c ∷ name) ≡ true
    → sname_from s prevc (dir ++ b'/' ∷ c ∷ name) ≡ c ∷ name
unfolding sname_from
name_behind [] s prevc c name l = name_begins c name l
name_behind (d ∷ dir) s prevc c name l = name_behind dir _ d c name l

NameOf-sname_from : (path name : Bytes) → NameOf path name → sname_from path 0 path ≡ name
NameOf-sname_from _ _ (whole name l) = name_stays name 0 name refl l
NameOf-sname_from _ _ (behind dir c name l) = name_behind dir _ 0 c name l

slash_first :
    (c : ℕ) (p : Bytes)
    → (c == b'/') ≡ true
    → is_component p ≡ true
    → (n : Bytes) × NameOf (c ∷ p) n
slash_first c [] e l = (c ∷ [], whole (c ∷ []) refl)
slash_first c (d ∷ p) e l =
    let is_slash : c ≡ b'/' = ground arith in
    (d ∷ p, subst (λ x. NameOf (x ∷ d ∷ p) (d ∷ p)) (sym is_slash) (behind [] d p l))

longer :
    (c : ℕ) (p : Bytes) → (c == b'/') ≡ false → is_component p ≡ true → is_component (c ∷ p) ≡ true
longer c [] h l = refl
longer c (d ∷ p) h l = rw (h, l) refl

one_more : (c : ℕ) (p n : Bytes) → NameOf p n → (m : Bytes) × NameOf (c ∷ p) m
one_more c _ _ (behind dir d name l) = (d ∷ name, behind (c ∷ dir) d name l)
one_more c _ _ (whole p l) = elim (Bool-cases (c == b'/')) [
  | inl e ↦ slash_first c p e l
  | inr h ↦ (c ∷ p, whole (c ∷ p) (longer c p h l))
]

has_name : (path : Bytes) → (name : Bytes) × NameOf path name
has_name [] = ([], whole [] refl)
has_name (c ∷ p) = let (n, h) = has_name p in one_more c p n h

-- Every path has just one last component without a slash but at its end, which is all of the path
-- or follows a slash in it, and `sname` gives that component.
pub sname-NameOf :
    (path : Bytes)
    → (name : Bytes) × (sname (some path) ≡ some name)
      × NameOf path name
      × ((other : Bytes) → NameOf path other → other ≡ name)
unfolding sname
sname-NameOf path =
    let (name, h) = has_name path in
    let found = NameOf-sname_from path name h in
    (name, ap some found, h, λ other k. sym (NameOf-sname_from path other k) ∙ found)
