-- ===== src/Main/Colored.antt =====
-- The whole program, for a user who colors stderr.
use errmark.Prelude.{
  arith, ℕ, ◌==◌, true, false, none, List, [], ◌∷◌, ◌++◌, Bytes, lacks, length, ◌≡◌, refl,
}
use errmark.World.{World}
use errmark.Cscript.Color.{ColorEsc, Names, normal, brighter, color, colors_table, AllFound, each}
use errmark.Cscript.PrintFh.{set_eprint_fh}
use errmark.Marks.Reader.{all_pass, all_pass-imply}
use errmark.Marks.Skips.{clash, lacks_starts}
use errmark.Marks.Apart.{skips_stderr, told_apart, MarkedBy, told_apart-Reads}
use errmark.Writes.{Stop}
use errmark.Run.PassOn.{Allocates}
use errmark.Run.Script.{Event, stops_of, AreEvents, pieces}
use errmark.Main.{Env, main_program}
use errmark.Main.Exit.{Exits}
use errmark.Main.Choices.{color as colored}
use errmark.Main.Settings.{AreTold, settings}
use errmark.Main.Read.{Over, IsRead, main_program-Reads}

-- ESC
abbrev pub escape : ℕ
escape = 0x1b

lacks-lacks_starts :
    (b : ℕ) (s e text : Bytes)
    → lacks b text ≡ true
    → lacks_starts (skips_stderr (b ∷ s) (b ∷ e)) text ≡ true
lacks-lacks_starts b s e [] h = refl
lacks-lacks_starts b s e (c ∷ cs) h = ground (arith, lacks-lacks_starts b s e cs)

-- The sequences of a row of a table can be told from one another, and from a text without ESC.
abbrev IsTold : ColorEsc → Type 0
IsTold ent =
    (clash ent.esc_start ent.esc_end ≡ true)
    × ((text : Bytes)
        → lacks escape text ≡ true
        → lacks_starts (skips_stderr ent.esc_start ent.esc_end) text ≡ true)

table-IsTold : (style : ℕ) → (style == b'm') ≡ false → AllFound IsTold (colors_table style)
table-IsTold style h = (
  row b'0',
  (row b'1', (row b'2', (row b'3', (row b'4', (row b'5', (row b'6', (row b'7', tt))))))),
)
  where
    row : (number : ℕ) → IsTold (color style number [])
    row number = (
      rw h refl,
      lacks-lacks_starts escape (b'[' ∷ style ∷ b';' ∷ b'3' ∷ number ∷ b'm' ∷ [])
          (b'[' ∷ b'm' ∷ []),
    )

named-IsTold : (name : Bytes) (ent : ColorEsc) → Names name ent → IsTold ent
named-IsTold _ _ (normal ent i) = each IsTold (colors_table b'0') (table-IsTold b'0' refl) ent i
named-IsTold _ _ (brighter ent i) = each IsTold (colors_table b'1') (table-IsTold b'1' refl) ent i

colored-MarkedBy :
    (ent : ColorEsc) (env : Env) (w : World)
    → clash ent.esc_start ent.esc_end ≡ true
    → w.marks.start1 ≡ none
    → w.marks.end1 ≡ none
    → MarkedBy ent.esc_start ent.esc_end
        (settings (colored ent ∷ []) (set_eprint_fh env.out env.err w)).marks
unfolding set_eprint_fh
colored-MarkedBy ent env w d p q = record {
  no_start1 = p;
  no_end1 = q;
  start2_is = refl;
  end2_is = refl;
  differ = d;
}

-- Errmark with a --color by its name, where no marks are set before: who reads what it shows, skips
-- the two escape sequences of the color, and takes what stands between them for stderr and all else
-- for stdout, has the bytes of the program's writes to 1 and 2, in order, each with its descriptor;
-- and the exit code is that of the program, 0 where it was killed, the signal of a stop other than
-- by SIGTRAP and SIGCHLD, 255 where it was continued, and 0 where it is gone, found behind a first
-- stop by a GETREGS that meets no process (as where it exits with 0). The program writes no escape
-- character, its writes are readable, no messages are asked for before, a copy that is asked for
-- can be opened, malloc gives blocks of the size asked for, and argv has a first word.
pub main_program-colored :
    (name : Bytes) (ent : ColorEsc) (env : Env) (argv : List Bytes) (es : List Event)
    (tail : List Stop) (code : ℕ) (w : World)
    → Names name ent
    → AreTold (colored ent ∷ []) env.gots
    → w.marks.start1 ≡ none
    → w.marks.end1 ≡ none
    → w.debug ≡ false
    → w.verbose ≡ false
    → Allocates w.libc
    → (length argv == 0) ≡ false
    → env.opens ≡ true
    → AreEvents es
    → all_pass (lacks escape) (pieces es) ≡ true
    → Over es tail code
    → env.stops ≡ stops_of es ++ tail
    → Exits
        (main_program env argv w)
        (λ c w'. (c ≡ code) × IsRead (told_apart ent.esc_start ent.esc_end) es w w')
main_program-colored name ent env argv es tail code w known t p q d v m some_word opens ev l over
      stops =
    let (d', free) = named-IsTold name ent known in
    main_program-Reads (colored ent ∷ []) env argv w es tail code
      (record {
        are_told = t;
        are_set = refl;
        no_debug = d;
        no_verbose = v;
        allocates = m;
        some_word = some_word;
        opens = opens;
      })
      (told_apart-Reads ent.esc_start ent.esc_end (colored-MarkedBy ent env w d' p q)) ev
      (all_pass-imply (lacks escape) _ free (pieces es) l) over stops
