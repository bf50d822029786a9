-- ===== src/Main/Choices.antt =====
-- What the user asks for by each option.
use errmark.Prelude.{
  ℕ, true, false, ◌==◌, some, List, eq_bytes, [], ◌∷◌, ◌++◌, Bytes, codes, lacks, ◌≡◌, ◌≢◌,
  if◌then◌else◌,
}
use errmark.World.{World, on_cmd}
use errmark.Cscript.Ascii.{are_ascii}
use errmark.Cscript.Color.{ColorEsc, Names}
use errmark.Marks.Specs.{set_marks2}
use errmark.Marks.Transcript.{Fd}
use errmark.Marks.Parsing.{fd_digit, mark_of, set_marks}
use errmark.Options.{LongOption, long_options}
use errmark.Main.{Got}

pub data Choice : Type 0 where
  verbose : Choice
  mark : Fd → Bytes → Bytes → Choice
  color : ColorEsc → Choice
  copy : Bytes → Choice
  wrong : Choice

-- The value that `long_options` gives to a name.
abbrev pub value_in : List LongOption → Bytes → ℕ
value_in [] name = 0
value_in (o ∷ os) name = let rest = value_in os name in if eq_bytes name o.name then o.val else rest

abbrev pub value_of : Bytes → ℕ
value_of name = value_in long_options name

-- The result of getopt_long() that tells of a choice.
pub data Tells : Choice → Got → Type 0 where
  at_verbose :
      (arg : Bytes) (opt : ℕ) (text : Bytes)
      → Tells verbose
          (record { optc = value_of (codes "verbose"); optarg = arg; optopt = opt; word = text })
  at_mark :
      (fd : Fd) (sep : ℕ) (m_start m_end : Bytes) (opt : ℕ) (text : Bytes)
      → sep ≢ 0
      → lacks sep m_start ≡ true
      → are_ascii (fd_digit fd ∷ sep ∷ (m_start ++ sep ∷ m_end)) ≡ true
      → Tells (mark fd m_start m_end) (record {
        optc = value_of (codes "mark");
        optarg = fd_digit fd ∷ sep ∷ (m_start ++ sep ∷ m_end);
        optopt = opt;
        word = text;
      })
  at_color :
      (name : Bytes) (ent : ColorEsc) (opt : ℕ) (text : Bytes)
      → Names name ent
      → Tells
          (color ent)
          (record { optc = value_of (codes "color"); optarg = name; optopt = opt; word = text })
  at_copy :
      (fname : Bytes) (opt : ℕ) (text : Bytes)
      → Tells
          (copy fname)
          (record { optc = value_of (codes "copy"); optarg = fname; optopt = opt; word = text })
  at_wrong :
      (arg : Bytes) (opt : ℕ) (text : Bytes)
      → (opt == b'?') ≡ false
      → Tells wrong (record { optc = b'?'; optarg = arg; optopt = opt; word = text })

-- What is set by a choice; a color brackets what is written to stderr.
abbrev pub put : Choice → World → World
put verbose w = record w { verbose = true }
put (mark fd m_start m_end) w = set_marks fd (mark_of w.libc m_start) (mark_of w.libc m_end) w
put (color ent) w = set_marks2 (some ent.esc_start) (some ent.esc_end) w
put (copy fname) w = on_cmd (λ c. record c { copy_fname = some fname }) w
put wrong w = w

abbrev pub wrong_of : Choice → ℕ
wrong_of verbose = 0
wrong_of (mark fd m_start m_end) = 0
wrong_of (color ent) = 0
wrong_of (copy fname) = 0
wrong_of wrong = 1
