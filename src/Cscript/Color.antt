-- ===== src/Cscript/Color.antt =====
-- src/libcscript/lookup-color-name.c and `struct color_esc` of src/inc/cscript.h.
use errmark.Prelude.{
  ℕ, Bool, true, false, inl, inr, Option, none, some, List, [], ◌∷◌, ◌++◌, Bytes, codes, eq_bytes,
  ◌==◌, ◌≡◌, ◌⊎◌, refl, sym, subst, ap, ◌∙◌, if◌then◌else◌, arith,
}

pub record ColorEsc : Type 0 where
  pub name : Bytes
  pub esc_start : Bytes
  pub esc_end : Bytes

-- A row of a table, with the start `\e[<style>;<number>m` and the end `\e[m`.
abbrev pub color : ℕ → ℕ → Bytes → ColorEsc
color style number name = record {
  name = name;
  esc_start = 0x1b ∷ b'[' ∷ style ∷ b';' ∷ b'3' ∷ number ∷ b'm' ∷ [];
  esc_end = 0x1b ∷ b'[' ∷ b'm' ∷ [];
}

abbrev pub colors_table : ℕ → List ColorEsc
colors_table style =
    color style b'0' (codes "black")
    ∷ color style b'1' (codes "red")
    ∷ color style b'2' (codes "green")
    ∷ color style b'3' (codes "yellow")
    ∷ color style b'4' (codes "blue")
    ∷ color style b'5' (codes "magenta")
    ∷ color style b'6' (codes "cyan")
    ∷ color style b'7' (codes "white")
    ∷ []

abbrev pub normal_colors : List ColorEsc
normal_colors = colors_table b'0'

abbrev pub bright_colors : List ColorEsc
bright_colors = colors_table b'1'

abbrev pub bright : Bytes
bright = codes "bright-"

-- strncmp(s, prefix, strlen(prefix)) == 0, and what follows the prefix then
unfoldable pub behind_prefix : Bytes → Bytes → Option Bytes
behind_prefix [] s = some s
behind_prefix (c ∷ prefix) [] = none
behind_prefix (c ∷ prefix) (d ∷ s) =
    let rest = behind_prefix prefix s in if c == d then rest else none

-- for (i = 0; ent = &color_table[i], ent->name != NULL; ++i)
unfoldable pub find_color : List ColorEsc → Bytes → Option ColorEsc
find_color [] name = none
find_color (ent ∷ color_table) name =
    let rest = find_color color_table name in if eq_bytes name ent.name then some ent else rest

unfoldable pub lookup_color : Option Bytes → Option ColorEsc
unfolding find_color behind_prefix
lookup_color none = none
lookup_color (some name) = elim (behind_prefix bright name) [
  | some rest ↦ find_color bright_colors rest
  | none ↦ find_color normal_colors name
]

-- An entry of a table.
abbrev pub IsIn : ColorEsc → List ColorEsc → Type 0
IsIn ent [] = ⊥
IsIn ent (x ∷ xs) = (ent ≡ x) ⊎ IsIn ent xs

-- The names that there are, each with its entry.
pub data Names : Bytes → ColorEsc → Type 0 where
  normal : (ent : ColorEsc) → IsIn ent normal_colors → Names ent.name ent
  brighter : (ent : ColorEsc) → IsIn ent bright_colors → Names (bright ++ ent.name) ent

abbrev pub AllFound : (ColorEsc → Type 0) → List ColorEsc → Type 0
AllFound P [] = Unit {0}
AllFound P (x ∷ xs) = P x × AllFound P xs

pub each :
    (P : ColorEsc → Type 0) (xs : List ColorEsc)
    → AllFound P xs
    → (ent : ColorEsc) → IsIn ent xs
    → P ent
each P [] h ent i = absurd i
each P (x ∷ xs) (p, h) ent (inl e) = subst P (sym e) p
each P (x ∷ xs) (p, h) ent (inr i) = each P xs h ent i

find_normal : (ent : ColorEsc) → IsIn ent normal_colors → lookup_color (some ent.name) ≡ some ent
unfolding lookup_color
find_normal =
    each (λ ent. lookup_color (some ent.name) ≡ some ent) normal_colors
      (refl, (refl, (refl, (refl, (refl, (refl, (refl, (refl, tt))))))))

find_bright :
    (ent : ColorEsc) → IsIn ent bright_colors → lookup_color (some (bright ++ ent.name)) ≡ some ent
unfolding lookup_color
find_bright =
    each (λ ent. lookup_color (some (bright ++ ent.name)) ≡ some ent) bright_colors
      (refl, (refl, (refl, (refl, (refl, (refl, (refl, (refl, tt))))))))

lookup_named :
    (name : Bytes) (ent : ColorEsc) → Names name ent → lookup_color (some name) ≡ some ent
lookup_named _ _ (normal ent i) = find_normal ent i
lookup_named _ _ (brighter ent i) = find_bright ent i

eq_bytes→eq : (a b : Bytes) → eq_bytes a b ≡ true → a ≡ b
eq_bytes→eq [] [] h = refl
eq_bytes→eq [] (y ∷ ys) h = cc
eq_bytes→eq (x ∷ xs) [] h = cc
eq_bytes→eq (x ∷ xs) (y ∷ ys) h = ground (arith, eq_bytes→eq xs ys)

behind_prefix_sound :
    (prefix s rest : Bytes) → behind_prefix prefix s ≡ some rest → s ≡ prefix ++ rest
unfolding behind_prefix
behind_prefix_sound [] s rest h = cc
behind_prefix_sound (c ∷ prefix) [] rest h = cc
behind_prefix_sound (c ∷ prefix) (d ∷ s) rest h = ground (arith, behind_prefix_sound prefix s rest)

taken :
    (b : Bool) (x ent : ColorEsc) (rest : Option ColorEsc)
    → (if b then some x else rest) ≡ some ent
    → ((b ≡ true) × (ent ≡ x)) ⊎ (rest ≡ some ent)
taken true x ent rest h = inl (refl, cc)
taken false x ent rest h = inr h

find_color_sound :
    (table : List ColorEsc) (name : Bytes) (ent : ColorEsc)
    → find_color table name ≡ some ent
    → (name ≡ ent.name) × IsIn ent table
unfolding find_color
find_color_sound [] name ent h = cc
find_color_sound (x ∷ table) name ent h =
    elim (taken (eq_bytes name x.name) x ent (find_color table name) h) [
      | inl (found, e) ↦
          (eq_bytes→eq name x.name found ∙ ap (λ (y : ColorEsc). y.name) (sym e), inl e)
      | inr later ↦ let (n, i) = find_color_sound table name ent later in (n, inr i)
    ]

lookup_sound :
    (name : Bytes) (ent : ColorEsc) (o : Option Bytes)
    → behind_prefix bright name ≡ o
    → elim o [ some rest ↦ find_color bright_colors rest | none ↦ find_color normal_colors name ]
      ≡ some ent
    → Names name ent
lookup_sound name ent none p h =
    let (n, i) = find_color_sound normal_colors name ent h in
    subst (λ k. Names k ent) (sym n) (normal ent i)
lookup_sound name ent (some rest) p h =
    let (n, i) = find_color_sound bright_colors rest ent h in
    subst (λ k. Names k ent)
      (sym (behind_prefix_sound bright name rest p ∙ ap (λ (k : Bytes). bright ++ k) n))
      (brighter ent i)

-- `lookup_color` finds an entry just for the names that there are: those of the normal table, and
-- those of the bright one behind the prefix `bright-`; and it finds the entry of that name.
pub lookup_color-Names :
    (name : Bytes) (ent : ColorEsc)
    → (lookup_color (some name) ≡ some ent → Names name ent)
      × (Names name ent → lookup_color (some name) ≡ some ent)
unfolding lookup_color
lookup_color-Names name ent =
    (lookup_sound name ent (behind_prefix bright name) refl, lookup_named name ent)
