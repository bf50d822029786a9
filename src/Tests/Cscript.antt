-- ===== src/Tests/Cscript.antt =====
-- Colors and names of files.
use errmark.Stdio.{Stream}
use errmark.Cscript.Show.{char_text, fshow_str, fshow_str_array}
use errmark.Cscript.Ascii.{put_chars, are_printable, visible, fshow_str-ascii, fshow_str-upper}
use errmark.World.{ret, undefined}
use errmark.Tests.Samples.{world}
use errmark.Cscript.WaitStatus.{fshow_wait_status}
use errmark.Cscript.Ended.{killed, say, describe, fshow_wait_status-describe}
use errmark.Cscript.DebugFh.{
  set_debug_fh, first_opened, candidates, otherwise, file, set_debug_fh-first_opened,
}
use errmark.Cscript.Listing.{Said, listing, fshow_str_array-listing}
use errmark.World.Returns.{Returns}
use errmark.Cscript.Esym.{decode_esym_r}
use errmark.Cscript.Symbols.{symbol_of, decode_esym_r-whole}
use errmark.Prelude.{
  List, decimal, pad_left, Bytes, Bool, Option, none, eq_bytes, pos, if◌then◌else◌, [], arith, some,
  true, ◌≡◌, refl, codes, ◌∷◌,
}
use errmark.Cscript.Sname.{sname}
use errmark.Cscript.Named.{NameOf, sname-NameOf}
use errmark.Cscript.Color.{ColorEsc, Names, lookup_color, lookup_color-Names}

sname-NameOf_example :
    (name : Bytes) × (sname (some (codes "/usr/bin/")) ≡ some name)
    × NameOf (codes "/usr/bin/") name
    × ((other : Bytes) → NameOf (codes "/usr/bin/") other → other ≡ name)
sname-NameOf_example = sname-NameOf (codes "/usr/bin/")

abbrev bright_red : ColorEsc
bright_red = record {
  name = codes "red";
  esc_start = 0x1b ∷ codes "[1;31m";
  esc_end = 0x1b ∷ codes "[m";
}

lookup_color-Names_example :
    (lookup_color (some (codes "bright-red")) ≡ some bright_red
      → Names (codes "bright-red") bright_red)
    × (Names (codes "bright-red") bright_red
        → lookup_color (some (codes "bright-red")) ≡ some bright_red)
lookup_color-Names_example = lookup_color-Names (codes "bright-red") bright_red

-- killed by signal 40, which the sample table does not name
fshow_wait_status-describe_example :
    fshow_wait_status (codes "ls") 168 world
    ≡ ret tt (say (codes "ls ...\n" ∷ describe world.libc (killed 40 true)) world)
fshow_wait_status-describe_example =
    fshow_wait_status-describe (codes "ls") (killed 40 true) world (omega arith, omega arith)

-- A tab and a letter.
fshow_str-ascii_example :
    (fshow_str (some Stream.stderr) (some (9 ∷ b'a' ∷ [])) world
      ≡ ret tt (put_chars Stream.stderr (9 ∷ b'a' ∷ []) world))
    × (are_printable (visible (9 ∷ b'a' ∷ [])) ≡ true)
fshow_str-ascii_example = fshow_str-ascii Stream.stderr (9 ∷ b'a' ∷ []) world refl

-- The first byte of an accented letter in UTF-8.
fshow_str-upper_example :
    fshow_str (some Stream.stderr) (some (b'a' ∷ 0xc3 ∷ 0xa9 ∷ [])) world
    ≡ undefined (put_chars Stream.stderr (b'a' ∷ []) world)
fshow_str-upper_example =
    fshow_str-upper Stream.stderr (b'a' ∷ []) (0xa9 ∷ []) 67 world refl (omega arith)

abbrev opens : Bytes → Bool
opens name = eq_bytes name (codes "log")

abbrev variables : Bytes → Option Bytes
variables name = if eq_bytes name (codes "DEBUG.errmark") then some (codes "log") else none

set_debug_fh-first_opened_example :
    set_debug_fh opens variables (codes "errmark") none (some [])
    ≡ first_opened opens (candidates variables (codes "errmark") []) (otherwise none [])
set_debug_fh-first_opened_example =
    set_debug_fh-first_opened opens variables (codes "errmark") none []

debug_to_log : set_debug_fh opens variables (codes "errmark") none (some []) ≡ file (codes "log")
unfolding set_debug_fh
debug_to_log = refl

decode_esym_r-whole_example : decode_esym_r 12 (pos 2147483647) ≡ symbol_of (pos 2147483647)
decode_esym_r-whole_example = decode_esym_r-whole 12 2147483647 (omega arith) (omega arith)

-- ls -l
abbrev words : List Bytes
words = codes "ls" ∷ codes "-l" ∷ []

fshow_str_array-listing_example :
    Returns (fshow_str_array (some Stream.stderr) words world) (λ _. Said (listing 1 0 words) world)
unfolding decimal
fshow_str_array-listing_example = fshow_str_array-listing words world refl

two_lines : listing 1 0 words ≡ codes "0) [ls]\n1) [-l]\n"
unfolding decimal pad_left visible char_text
two_lines = refl
