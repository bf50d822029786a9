-- ===== src/Options.antt =====
-- The options of src/cmd/errmark.c: the table for getopt_long(3), and what the options do.
use errmark.Prelude.{
  ℕ, Bool, true, false, ◌+◌, not, ◌||◌, Option, none, some, List, [], ◌∷◌, ◌++◌, pos, Bytes, codes,
  leb, if◌then◌else◌,
}
use errmark.Stdio.{Stream, fwrite}
use errmark.World.{
  World, M, gets, modify, when, exit_with, on_io, eprint, print_stderr, ◌>>=◌, ◌>>◌,
}
use errmark.Marks.Specs.{parse_mark_specs, setmark}
use errmark.Cscript.Show.{fshow_str}
use errmark.Cscript.Color.{ColorEsc, lookup_color, normal_colors, bright_colors}

abbrev pub opt_color_code : ℕ
opt_color_code = 0xf001

abbrev pub opt_mark_code : ℕ
opt_mark_code = 0xf002

abbrev pub opt_copy_code : ℕ
opt_copy_code = 0xf003

-- `struct option`, of getopt.h: `has_arg` is required_argument, and `flag` is NULL.
pub record LongOption : Type 0 where
  pub name : Bytes
  pub has_arg : Bool
  pub val : ℕ

abbrev long_option : Bytes → Bool → ℕ → LongOption
long_option name has_arg val = record { name = name; has_arg = has_arg; val = val }

abbrev pub long_options : List LongOption
long_options =
    long_option (codes "help") false b'h'
    ∷ long_option (codes "version") false b'V'
    ∷ long_option (codes "verbose") false b'v'
    ∷ long_option (codes "debug") false b'd'
    ∷ long_option (codes "mark") true opt_mark_code
    ∷ long_option (codes "color") true opt_color_code
    ∷ long_option (codes "copy") true opt_copy_code
    ∷ []

-- fputs to stdout
unfoldable pub print_stdout : Bytes → World → World
unfolding fwrite
print_stdout text = on_io (fwrite Stream.stdout text)

abbrev pub usage_text : Bytes
usage_text =
    codes "Options:\n"
    ++ (codes "  --help|-h|-?     Show this help message and exit\n"
        ++ (codes "  --version        Show ush version information and exit\n"
            ++ (codes "  --verbose|-v     verbose\n"
                ++ (codes "  --debug|-d       debug\n"
                    ++ (codes "  --mark|-m        <mark-specification>\n"
                        ++ (codes "      Where mark-specification = fd:start:end.\n"
                            ++ (codes "  --color          <color-name>\n"
                                ++ codes "  -c|copy          <filename>\n")))))))

abbrev pub version_text : Bytes
version_text = codes "0.1\n"

abbrev pub copyright_text : Bytes
copyright_text = codes "Copyright (C) 2016 Guy Shaw\n" ++ codes "Written by Guy Shaw\n"

abbrev pub license_text : Bytes
license_text =
    codes "License GPLv3+: GNU GPL version 3 or later"
    ++ (codes " <http://gnu.org/licenses/gpl.html>.\n"
        ++ (codes "This is free software: you are free to change and redistribute it.\n"
            ++ codes "There is NO WARRANTY, to the extent permitted by law.\n"))

unfoldable pub show_program_version : World → World
unfolding print_stdout
show_program_version w = print_stdout (codes "\n") (
    print_stdout license_text (
      print_stdout (codes "\n")
        (print_stdout copyright_text (print_stdout (codes "\n") (print_stdout version_text w)))))

unfoldable pub usage : Bytes → M (Unit {0})
unfolding eprint
usage program_name = do
  eprint (codes "usage: " ++ (program_name ++ codes " [ <options> ]\n"))
  eprint usage_text

unfoldable pub opt_mark : Bytes → M (Unit {0})
unfolding parse_mark_specs fshow_str print_stderr
opt_mark mark_specs = do
  mark_ok ← parse_mark_specs mark_specs
  verbose ← gets (λ w. w.verbose)
  when (verbose || not mark_ok) (do
    modify (print_stderr (codes "--mark='"))
    fshow_str (some Stream.stderr) (some mark_specs)
    modify (print_stderr (codes "'\n")))
  when (not mark_ok) (exit_with 2)

-- The names of a table with spaces between them; `i` counts from 0.
unfoldable pub show_names : ℕ → List ColorEsc → World → World
unfolding print_stderr
show_names i [] w = w
show_names i (ent ∷ color_table) w =
    let w' = if leb 1 i then print_stderr (codes " ") w else w in
    show_names (i + 1) color_table (print_stderr ent.name w')

unfoldable pub fshow_color_table : List ColorEsc → World → World
unfolding show_names
fshow_color_table color_table w = show_names 0 color_table w

unfoldable pub unknown_color : Bytes → World → World
unfolding print_stderr fshow_color_table
unknown_color color_name w =
    let first = print_stderr (codes "    ") (
      print_stderr (codes "Known color names are:\n")
        (print_stderr (codes "Unknown color, '" ++ (color_name ++ codes "'.\n")) w)) in
    let second =
      print_stderr (codes "    ")
        (print_stderr (codes "\n") (fshow_color_table normal_colors first)) in
    print_stderr (codes "\n") (fshow_color_table bright_colors second)

-- setmark() with the strings of the entry, if there is one
unfoldable pub set_color : Bytes → Option ColorEsc → M (Unit {0})
unfolding unknown_color setmark
set_color color_name none = do modify (unknown_color color_name); exit_with 2
set_color color_name (some ent) = do
  ok ← setmark (pos 2) ent.esc_start ent.esc_end
  when (not ok) (exit_with 2)

unfoldable pub opt_color : Bytes → M (Unit {0})
unfolding set_color lookup_color
opt_color color_name = set_color color_name (lookup_color (some color_name))
