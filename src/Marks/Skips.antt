-- ===== src/Marks/Skips.antt =====
-- A reader of marks of any length, by a table of what it skips.
use errmark.Prelude.{
  ℕ, zero, suc, same_byte, Bool, true, false, not, ◌&&◌, ◌||◌, ◌==◌, Option, none, some, List, [],
  ◌∷◌, ◌++◌, Bytes, length, left_of, right_of, negated, ◌≡◌, refl, ap, if◌then◌else◌, arith,
}
use errmark.Marks.Transcript.{Fd}
use errmark.Marks.Reader.{tag, side}

-- A mark, and the run that what follows it is in.
pub record Skip : Type 0 where
  pub mark : Bytes
  pub to : Option Fd

abbrev pub is_empty : Bytes → Bool
is_empty [] = true
is_empty (c ∷ cs) = false

-- The text begins with the mark.
abbrev pub begins : Bytes → Bytes → Bool
begins [] text = true
begins (a ∷ mark) [] = false
begins (a ∷ mark) (c ∷ text) = a == c && begins mark text

-- Two marks have different bytes at some place.
abbrev pub clash : Bytes → Bytes → Bool
clash [] e = false
clash (a ∷ s) [] = false
clash (a ∷ s) (b ∷ e) = if a == b then clash s e else true

abbrev pub tail_length : Bytes → ℕ
tail_length [] = 0
tail_length (c ∷ cs) = length cs

-- The first mark that a text begins with: how many bytes follow its first one, and what it opens.
abbrev pub skip_at : List Skip → Bytes → Option (ℕ × Option Fd)
skip_at [] text = none
skip_at (s ∷ skips) text =
    let rest = skip_at skips text in
    if begins s.mark text then some (tail_length s.mark, s.to) else rest

-- A reader that skips these marks, with `k` bytes of a mark still to be skipped. It takes each
-- other byte for one of the descriptor whose run it is in.
abbrev pub told : List Skip → ℕ → Option Fd → Bytes → List (Fd × ℕ)
told skips k cur [] = []
told skips (suc k) cur (c ∷ cs) = told skips k cur cs
told skips zero cur (c ∷ cs) = elim (skip_at skips (c ∷ cs)) [
  | none ↦ (side cur, c) ∷ told skips zero cur cs
  | some (k, to) ↦ told skips k to cs
]

-- The byte may be the first of the mark.
abbrev pub begins_with : Bytes → ℕ → Bool
begins_with [] c = true
begins_with (a ∷ mark) c = a == c

-- The byte may be the first of a mark of the table.
abbrev pub starts_mark : List Skip → ℕ → Bool
starts_mark [] c = false
starts_mark (s ∷ skips) c = let rest = starts_mark skips c in begins_with s.mark c || rest

-- No byte of the text begins a mark.
abbrev pub lacks_starts : List Skip → Bytes → Bool
lacks_starts skips [] = true
lacks_starts skips (c ∷ cs) = not (starts_mark skips c) && lacks_starts skips cs

-- The mark is in the table, and clashes with those before it.
pub data Skips (mark : Bytes) (to : Option Fd) : List Skip → Type 0 where
  at_head : {skips : List Skip} → Skips mark to (record { mark = mark; to = to } ∷ skips)
  later :
      {s : Skip} {skips : List Skip}
      → clash s.mark mark ≡ true
      → Skips mark to skips
      → Skips mark to (s ∷ skips)

pub clash-left : (s e : Bytes) → clash s e ≡ true → is_empty s ≡ false
clash-left [] e h = cc
clash-left (a ∷ s) e h = refl

pub clash-right : (s e : Bytes) → clash s e ≡ true → is_empty e ≡ false
clash-right [] e h = cc
clash-right (a ∷ s) [] h = cc
clash-right (a ∷ s) (b ∷ e) h = refl

begins_itself : (mark rest : Bytes) → begins mark (mark ++ rest) ≡ true
begins_itself [] rest = refl
begins_itself (c ∷ mark) rest = rw (same_byte c) (begins_itself mark rest)

begins-clash : (s e rest : Bytes) → clash s e ≡ true → begins s (e ++ rest) ≡ false
begins-clash [] e rest h = cc
begins-clash (a ∷ s) [] rest h = cc
begins-clash (a ∷ s) (c ∷ e) rest h = ground (arith, begins-clash s e rest)

skip_at-Skips :
    (c : ℕ) (mark : Bytes) (to : Option Fd) (skips : List Skip) (rest : Bytes)
    → Skips (c ∷ mark) to skips
    → skip_at skips ((c ∷ mark) ++ rest) ≡ some (length mark, to)
skip_at-Skips c mark to _ rest at_head = rw (same_byte c, begins_itself mark rest) refl
skip_at-Skips c mark to _ rest (later {s} {skips} h k) =
    rw (begins-clash s.mark (c ∷ mark) rest h) (skip_at-Skips c mark to skips rest k)

no_begin :
    (mark : Bytes) (c : ℕ) (cs : Bytes) → begins_with mark c ≡ false → begins mark (c ∷ cs) ≡ false
no_begin [] c cs h = cc
no_begin (a ∷ mark) c cs h = rw h refl

skip_at-none :
    (skips : List Skip) (c : ℕ) (cs : Bytes)
    → starts_mark skips c ≡ false
    → skip_at skips (c ∷ cs) ≡ none
skip_at-none [] c cs h = refl
skip_at-none (s ∷ skips) c cs h =
    let first : begins_with s.mark c ≡ false = ground arith in
    let others : starts_mark skips c ≡ false = ground arith in
    rw (no_begin s.mark c cs first) (skip_at-none skips c cs others)

module _ (skips : List Skip) where
  skip :
      (mark : Bytes) (cur : Option Fd) (rest : Bytes)
      → told skips (length mark) cur (mark ++ rest) ≡ told skips zero cur rest
  skip [] cur rest = refl
  skip (c ∷ mark) cur rest = skip mark cur rest

  pub told-Skips :
      (mark : Bytes) (to cur : Option Fd) (rest : Bytes)
      → is_empty mark ≡ false
      → Skips mark to skips
      → told skips zero cur (mark ++ rest) ≡ told skips zero to rest
  told-Skips [] to cur rest n h = cc
  told-Skips (c ∷ mark) to cur rest n h =
      rw (skip_at-Skips c mark to skips rest h, told) (skip mark to rest)

  pub told-tag :
      (fd : Fd) (text rest : Bytes)
      → lacks_starts skips text ≡ true
      → told skips zero (some fd) (text ++ rest) ≡ tag fd text ++ told skips zero (some fd) rest
  told-tag fd [] rest h = refl
  told-tag fd (c ∷ cs) rest h =
      let free =
        negated (starts_mark skips c)
          (left_of (not (starts_mark skips c)) (lacks_starts skips cs) h) in
      rw (skip_at-none skips c (cs ++ rest) free, told)
        (ap (λ (t : List (Fd × ℕ)). (fd, c) ∷ t)
          (told-tag fd cs rest (right_of (not (starts_mark skips c)) (lacks_starts skips cs) h)))
