-- ===== src/Cscript/Listing.antt =====
-- What `fshow_str_array` prints to stderr, as one text.
use errmark.Prelude.{
  ℕ, ◌+◌, Bool, true, ◌&&◌, left_of, right_of, some, List, [], ◌∷◌, ◌++◌, append-nil, append_assoc,
  Bytes, codes, length, decimal, pad_left, ◌≡◌, refl, sym, ap, subst, ◌∙◌,
}
use errmark.Stdio.{Stream, fwrite, write}
use errmark.Stdio.Shown.{texts, texts-append}
use errmark.World.{World, M, on_io, fprint, ◌>>◌}
use errmark.World.Returns.{Returns, Returns-bind, Returns-map}
use errmark.Cscript.Show.{as_char, char_text, fshow_str, show_array, fshow_str_array}
use errmark.Cscript.Ascii.{are_ascii, visible, put_chars, fshow_str-ascii}

-- One line for each string: its index, in a field of the width given, and the string in brackets.
abbrev pub listing : ℕ → ℕ → List Bytes → Bytes
listing maxw i [] = []
listing maxw i (s ∷ av) =
    pad_left b' ' maxw (decimal i)
    ++ (codes ") [" ++ (visible s ++ (codes "]\n" ++ listing maxw (i + 1) av)))

abbrev pub all_ascii : List Bytes → Bool
all_ascii [] = true
all_ascii (s ∷ av) = are_ascii s && all_ascii av

-- From `w` to `w'`, this text has been sent to stderr, and nothing else has changed.
pub record Said (text : Bytes) (w w' : World) : Type 0 where
  pub text_is : texts w'.io.sent ≡ texts w.io.sent ++ text
  pub same : w' ≡ record w { io = record (w.io) { sent = w'.io.sent } }

Said-fwrite : (text : Bytes) (w : World) → Said text w (on_io (fwrite Stream.stderr text) w)
unfolding fwrite write
Said-fwrite text w = record {
  text_is = texts-append w.io.sent _ ∙ ap (λ (t : Bytes). texts w.io.sent ++ t) (append-nil text);
  same = refl;
}

Said-trans : {s t : Bytes} {u v w : World} → Said s u v → Said t v w → Said (s ++ t) u w
Said-trans {s} {t} {u} {v} {w} h k = record {
  text_is = k.text_is ∙ ap (λ (x : Bytes). x ++ t) h.text_is ∙ append_assoc (texts u.io.sent) s t;
  same = k.same ∙ ap (λ (x : World). record x { io = record (x.io) { sent = w.io.sent } }) h.same;
}

Said-nil : (w : World) → Said [] w w
Said-nil w = record { text_is = sym (append-nil (texts w.io.sent)); same = refl }

put_chars-Said : (s : Bytes) (w : World) → Said (visible s) w (put_chars Stream.stderr s w)
unfolding put_chars visible
put_chars-Said [] w = Said-nil w
put_chars-Said (c ∷ s) w = Said-trans (Said-fwrite (char_text (as_char c)) w) (put_chars-Said s _)

fshow_str-Said :
    (s : Bytes) (w : World)
    → are_ascii s ≡ true
    → Returns (fshow_str (some Stream.stderr) (some s) w) (λ _. Said (visible s) w)
fshow_str-Said s w h =
    subst (λ o. Returns o (λ _. Said (visible s) w)) (sym (fshow_str-ascii Stream.stderr s w h).0)
      (put_chars-Said s w)

fprint-Said :
    (text : Bytes) (w : World) → Returns (fprint (some Stream.stderr) text w) (λ _. Said text w)
unfolding fprint
fprint-Said text w = Said-fwrite text w

-- One action that prints, and then another.
then-Said :
    (s t : Bytes) (m k : M (Unit {0}))
    → ((v : World) → Returns (m v) (λ _. Said s v))
    → ((v : World) → Returns (k v) (λ _. Said t v))
    → (w : World) → Returns ((m >> k) w) (λ _. Said (s ++ t) w)
then-Said s t m k h g w =
    Returns-bind (λ _. Said s w) (λ _. Said (s ++ t) w) (m w) (λ _. k) (h w)
      λ _ v here.
        Returns-map (λ _. Said t v) (λ _. Said (s ++ t) w) (k v) (g v)
          λ _ u there. Said-trans here there

show_array-Said :
    (maxw i : ℕ) (av : List Bytes) (w : World)
    → all_ascii av ≡ true
    → Returns (show_array (some Stream.stderr) maxw i av w) (λ _. Said (listing maxw i av) w)
unfolding show_array
show_array-Said maxw i [] w h = Said-nil w
show_array-Said maxw i (s ∷ av) w h =
    let here = left_of (are_ascii s) (all_ascii av) h in
    let later = right_of (are_ascii s) (all_ascii av) h in
    then-Said _ _ _ _ (fprint-Said (pad_left b' ' maxw (decimal i)))
      (then-Said _ _ _ _ (fprint-Said (codes ") [")) (
        then-Said _ _ _ _ (λ v. fshow_str-Said s v here)
          (then-Said _ _ _ _ (fprint-Said (codes "]\n"))
            (λ v. show_array-Said maxw (i + 1) av v later))))
      w

-- Of strings of bytes below 128, `fshow_str_array` sends to stderr a line for each, with its index,
-- padded to the width of their number, and the string in its visible form in brackets, and returns;
-- nothing else changes.
pub fshow_str_array-listing :
    (av : List Bytes) (w : World)
    → all_ascii av ≡ true
    → Returns
        (fshow_str_array (some Stream.stderr) av w)
        (λ _. Said (listing (length (decimal (length av))) 0 av) w)
unfolding fshow_str_array
fshow_str_array-listing av w h = show_array-Said (length (decimal (length av))) 0 av w h
