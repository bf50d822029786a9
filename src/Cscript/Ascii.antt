-- ===== src/Cscript/Ascii.antt =====
-- What `fshow_str` prints, by the bytes of the string.
use native.Mathlib.Decide.{ℕ_discrete}
use mathlib.Core.List.{append-nil}
use errmark.Prelude.{
  left_of, negated, right_of, ℕ, zero, suc, ◌+◌, ◌<◌, ◌≡◌, refl, sym, ap, ◌∙◌, subst, Bool, true,
  false, not, ◌&&◌, some, [], ◌∷◌, ◌++◌, ℤ, Bytes, length, ltb, leb, arith,
}
use errmark.Stdio.{Stream, fwrite}
use errmark.World.{World, Outcome, ret, undefined, bind, on_io, fprint}
use errmark.Cscript.Show.{as_char, char_text, show_char_r, show_chars, fshow_str}

-- A test of all numbers below `n`.
abbrev all_below : ℕ → (ℕ → Bool) → Bool
all_below zero p = true
all_below (suc n) p = p n && all_below n p

all_below-at : (n : ℕ) (p : ℕ → Bool) (i : ℕ) → all_below n p ≡ true → i < n → p i ≡ true
all_below-at zero p i h lt = ground arith
all_below-at (suc n) p i h lt = elim (ℕ_discrete i n) [
  | yes e ↦ subst (λ k. p k ≡ true) (sym e) (left_of (p n) (all_below n p) h)
  | no ne ↦ all_below-at n p i (right_of (p n) (all_below n p) h) (omega arith)
]

-- Each byte is a printing character of ASCII.
abbrev pub are_printable : Bytes → Bool
are_printable [] = true
are_printable (c ∷ s) = (leb 32 c && leb c 126) && are_printable s

abbrev pub are_ascii : Bytes → Bool
are_ascii [] = true
are_ascii (c ∷ s) = ltb c 128 && are_ascii s

-- The printed form of the characters, one after the other.
unfoldable pub visible : Bytes → Bytes
unfolding char_text
visible [] = []
visible (c ∷ s) = char_text (as_char c) ++ visible s

unfoldable pub put_chars : Stream → Bytes → World → World
unfolding fwrite char_text
put_chars f [] w = w
put_chars f (c ∷ s) w = put_chars f s (on_io (fwrite f (char_text (as_char c))) w)

short_ascii : (c : ℕ) → c < 128 → ltb (length (char_text (as_char c))) 8 ≡ true
unfolding char_text
short_ascii c h = all_below-at 128 (λ i. ltb (length (char_text (as_char i))) 8) c refl h

printable_ascii : (c : ℕ) → c < 128 → are_printable (char_text (as_char c)) ≡ true
unfolding char_text
printable_ascii c h = all_below-at 128 (λ i. are_printable (char_text (as_char i))) c refl h

long_upper : (i : ℕ) → i < 128 → ltb (length (char_text (as_char (128 + i)))) 8 ≡ false
unfolding char_text
long_upper i h =
    negated _
      (all_below-at 128 (λ k. not (ltb (length (char_text (as_char (128 + k)))) 8)) i refl h)

show_char-fits :
    (chr : ℤ) (w : World)
    → ltb (length (char_text chr)) 8 ≡ true
    → show_char_r 8 chr w ≡ ret (char_text chr) w
unfolding show_char_r
show_char-fits chr w h = rw (h, show_char_r) refl

show_char-overruns :
    (chr : ℤ) (w : World)
    → ltb (length (char_text chr)) 8 ≡ false
    → show_char_r 8 chr w ≡ undefined w
unfolding show_char_r
show_char-overruns chr w h = rw (h, show_char_r) refl

-- One character that fits, and then the rest.
show_chars-next :
    (f : Stream) (c : ℕ) (s : Bytes) (w : World)
    → ltb c 128 ≡ true
    → show_chars (some f) (c ∷ s) w
      ≡ show_chars (some f) s (on_io (fwrite f (char_text (as_char c))) w)
unfolding show_chars fprint
show_chars-next f c s w h =
    ap (λ (o : Outcome Bytes). bind o (λ dbuf v. show_chars (some f) s (on_io (fwrite f dbuf) v)))
      (show_char-fits (as_char c) w (short_ascii c (ground arith)))

show_chars-ascii :
    (f : Stream) (s rest : Bytes) (w : World)
    → are_ascii s ≡ true
    → show_chars (some f) (s ++ rest) w ≡ show_chars (some f) rest (put_chars f s w)
unfolding put_chars
show_chars-ascii f [] rest w h = refl
show_chars-ascii f (c ∷ s) rest w h =
    show_chars-next f c (s ++ rest) w (left_of (ltb c 128) (are_ascii s) h)
    ∙ show_chars-ascii f s rest _ (right_of (ltb c 128) (are_ascii s) h)

show_chars-stop :
    (f : Stream) (i : ℕ) (rest : Bytes) (w : World)
    → i < 128
    → show_chars (some f) ((128 + i) ∷ rest) w ≡ undefined w
unfolding show_chars fprint
show_chars-stop f i rest w k =
    ap
      (λ (o : Outcome Bytes). bind o (λ dbuf v. show_chars (some f) rest (on_io (fwrite f dbuf) v)))
      (show_char-overruns (as_char (128 + i)) w (long_upper i k))

printable-append :
    (s t : Bytes) → are_printable s ≡ true → are_printable t ≡ true → are_printable (s ++ t) ≡ true
printable-append [] t h k = k
printable-append (c ∷ s) t h k =
    both (leb 32 c && leb c 126) (are_printable s) (are_printable (s ++ t)) h
      λ r. printable-append s t r k
  where
    both : (a b d : Bool) → (a && b) ≡ true → (b ≡ true → d ≡ true) → (a && d) ≡ true
    both true b d p q = q p
    both false b d p q = cc

visible-printable : (s : Bytes) → are_ascii s ≡ true → are_printable (visible s) ≡ true
unfolding visible
visible-printable [] h = refl
visible-printable (c ∷ s) h =
    printable-append (char_text (as_char c)) (visible s)
      (printable_ascii c (below c (left_of (ltb c 128) (are_ascii s) h)))
      (visible-printable s (right_of (ltb c 128) (are_ascii s) h))
  where
    below : (n : ℕ) → ltb n 128 ≡ true → n < 128
    below n e = ground arith

-- Of a string of bytes below 128, `fshow_str` on a stream that is not NULL prints each byte in its
-- visible form, in order, and returns; all that is printed are printing characters of ASCII.
pub fshow_str-ascii :
    (f : Stream) (s : Bytes) (w : World)
    → are_ascii s ≡ true
    → (fshow_str (some f) (some s) w ≡ ret tt (put_chars f s w))
      × (are_printable (visible s) ≡ true)
unfolding fshow_str show_chars
fshow_str-ascii f s w h = (
  ap (λ (t : Bytes). show_chars (some f) t w) (sym (append-nil s)) ∙ show_chars-ascii f s [] w h,
  visible-printable s h,
)

-- At the first byte from 128 to 255, behind bytes below 128 that are printed, `fshow_str` on a
-- stream that is not NULL runs into undefined behaviour: the visible form overruns its buffer.
pub fshow_str-upper :
    (f : Stream) (s rest : Bytes) (i : ℕ) (w : World)
    → are_ascii s ≡ true
    → i < 128
    → fshow_str (some f) (some (s ++ (128 + i) ∷ rest)) w ≡ undefined (put_chars f s w)
unfolding fshow_str
fshow_str-upper f s rest i w h k =
    show_chars-ascii f s ((128 + i) ∷ rest) w h ∙ show_chars-stop f i rest _ k
