-- ===== src/Cscript/Show.antt =====
-- src/libcscript/show-char.c, fshow-str.c and fshow-str-array.c. A `char` is signed on x86.
use errmark.Prelude.{
  ℕ, ◌+◌, ◌-◌, ◌^◌, Bool, Option, none, some, not, false, ◌&&◌, List, [], ◌∷◌, ◌++◌, ℤ, pos, negsuc,
  Bytes, codes, length, decimal, hex2, pad_left, ltb, leb, if◌then◌else◌,
}
use errmark.Stdio.{Stream}
use errmark.World.{M, ret, undefined, eprint, fprint, abort_now, pure, ◌>>=◌, ◌>>◌}

-- The value of a byte as a `char`.
abbrev pub as_char : ℕ → ℤ
as_char b = if ltb b 128 then pos b else negsuc (255 - b)

-- The argument of `%x`: an `int` as an `unsigned int`.
abbrev pub as_unsigned : ℤ → ℕ
as_unsigned (pos n) = n
as_unsigned (negsuc n) = 2 ^ 32 - 1 - n

-- isprint() in the C locale
abbrev pub is_print : ℤ → Bool
is_print (pos n) = leb 32 n && leb n 126
is_print (negsuc n) = false

-- What `show_char_r` puts into the buffer, without the final NUL.
unfoldable pub char_text : ℤ → Bytes
unfolding hex2
char_text chr = if is_print chr then as_unsigned chr ∷ [] else codes "\\x" ++ hex2 (as_unsigned chr)

-- The text fits with its NUL into the buffer of `sz` bytes, or it overruns the buffer.
unfoldable pub show_char_r : ℕ → ℤ → M Bytes
unfolding char_text
show_char_r sz chr w =
    if not (leb 5 sz)
    then (do
      eprint (
          codes "show_char_r"
          ++ (codes ": buffer size is " ++ (decimal sz ++ codes ".  It must be >= 5.\n")))
      abort_now)
        w
    else if ltb (length (char_text chr)) sz
    then ret (char_text chr) w
    else undefined w

-- for (s = str; (chr = *s) != '\0'; ++s)
unfoldable pub show_chars : Option Stream → Bytes → M (Unit {0})
show_chars f [] = pure tt
show_chars f (c ∷ s) = do dbuf ← show_char_r 8 (as_char c); fprint f dbuf; show_chars f s

unfoldable pub fshow_str : Option Stream → Option Bytes → M (Unit {0})
fshow_str f none w = undefined w
fshow_str f (some str) w = show_chars f str w

-- for (i = 0; i < ac; ++i)
unfoldable pub show_array : Option Stream → ℕ → ℕ → List Bytes → M (Unit {0})
show_array f maxw i [] = pure tt
show_array f maxw i (s ∷ av) = do
  fprint f (pad_left b' ' maxw (decimal i))
  fprint f (codes ") [")
  fshow_str f (some s)
  fprint f (codes "]\n")
  show_array f maxw (i + 1) av

unfoldable pub fshow_str_array : Option Stream → List Bytes → M (Unit {0})
fshow_str_array f av = show_array f (length (decimal (length av))) 0 av
