-- ===== src/Main.antt =====
-- `main` of src/cmd/errmark.c: the loop over the options, the checks behind it, and the run.
pub mod Exit
pub mod Choices
pub mod Done
pub mod Settings
pub mod Rejects
pub mod Final
pub mod Debug
pub mod Ended
pub mod Gone
pub mod Read
pub mod Apart
pub mod Colored
pub mod Both
pub mod Launched
pub mod Total
pub mod Chosen
use errmark.Prelude.{
  ℕ, ◌+◌, ◌-◌, ◌/◌, Bool, true, false, not, ◌&&◌, ◌||◌, Option, none, some, List, [], ◌∷◌, ◌++◌, ℤ,
  pos, eq_ℤ, Bytes, codes, hex, hex2, length, drop, get_elem?, ltb, leb, ◌==◌, if◌then◌else◌,
}
use errmark.Stdio.{Stream}
use errmark.World.{
  World, Cmd, M, ret, gets, modify, when, pure, exit_with, on_cmd, eprint, dbg_printf, ◌>>=◌, ◌>>◌,
}
use errmark.Cscript.Esym.{snprintf}
use errmark.Cscript.Show.{fshow_str_array, is_print}
use errmark.Cscript.Sname.{sname}
use errmark.Cscript.PrintFh.{Fid, set_eprint_fh}
use errmark.Options.{
  opt_color_code, opt_mark_code, opt_copy_code, print_stdout, show_program_version, usage_text,
  usage, opt_mark, opt_color,
}
use errmark.Writes.{Stop, Locals}
use errmark.Run.{run_parent, percent_s}

-- A result of getopt_long() other than -1: what it returns, `optarg` (where there is one), `optopt`,
-- and the word `argv[this_option_optind]`.
pub record Got : Type 0 where
  pub optc : ℕ
  pub optarg : Bytes
  pub optopt : ℕ
  pub word : Bytes

unfoldable pub is_long_option : Bytes → Bool
is_long_option [] = false
is_long_option (c ∷ []) = false
is_long_option (c ∷ d ∷ s) = c == b'-' && d == b'-'

-- vischar_r(buf, sz, c)
unfoldable pub vischar_r : ℕ → ℕ → Bytes
unfolding hex2
vischar_r sz c = if is_print (pos c) then c ∷ [] else snprintf sz (codes "\\x" ++ hex2 c)

unfoldable pub debug_option : ℕ → M (Unit {0})
unfolding dbg_printf eprint hex
debug_option optc = do
  dbg_printf (codes "optc=0x" ++ hex optc)
  when (leb optc 127 && is_print (pos optc)) (dbg_printf (codes "='" ++ (optc ∷ codes "'")))
  eprint (codes "\n")

-- case '?'
unfoldable pub unknown_option : Bytes → Got → M (Unit {0})
unfolding eprint is_long_option vischar_r
unknown_option program_name got = do
  eprint program_name
  eprint (codes ": ")
  if is_long_option got.word
      then eprint (codes "unknown long option, '" ++ (got.word ++ codes "'\n"))
      else eprint (codes "unknown short option, '" ++ (vischar_r 10 got.optopt ++ codes "'\n"))

-- The switch; what is returned is the new `err_count`.
unfoldable pub switch_optc : Bytes → ℕ → ℕ → Got → M ℕ
unfolding show_program_version print_stdout opt_mark opt_color unknown_option eprint
switch_optc program_name err_count optc got =
    if optc == b'V'
    then (do modify show_program_version; exit_with 0)
    else if optc == b'h'
    then (do modify (print_stdout usage_text); exit_with 0)
    else if optc == b'd'
    then (do modify (λ w. record w { debug = true }); pure err_count)
    else if optc == b'v'
    then (do modify (λ w. record w { verbose = true }); pure err_count)
    else if optc == opt_mark_code
    then (do opt_mark got.optarg; pure err_count)
    else if optc == opt_color_code
    then (do opt_color got.optarg; pure err_count)
    else if optc == opt_copy_code
    then (do modify (on_cmd (λ c. record c { copy_fname = some got.optarg })); pure err_count)
    else if optc == b'?'
    then (do unknown_option program_name got; pure (err_count + 1))
    else (do
      eprint (
          program_name
          ++ (codes ": INTERNAL ERROR: unknown option, '" ++ (got.optopt ∷ codes "'\n")))
      exit_with 2)

-- One round of the loop behind getopt_long().
unfoldable pub take_option : Bytes → ℕ → Got → M ℕ
unfolding debug_option switch_optc
take_option program_name err_count got = do
  debug ← gets (λ w. w.debug)
  when debug (debug_option got.optc)
  let optc = if got.optc == b'?' && got.optopt == b'?' then b'h' else got.optc
  switch_optc program_name err_count optc got

-- `while (true)`: behind the last result, getopt_long() returns -1.
unfoldable pub options : Bytes → ℕ → List Got → M ℕ
unfolding take_option eprint
options program_name err_count [] = (do
  when (ltb 10 err_count) (eprint (program_name ++ codes ": Too many option errors.\n"))
  pure err_count)
options program_name err_count (got ∷ gots) = elim (ltb 10 err_count) [
  | true ↦ (do eprint (program_name ++ codes ": Too many option errors.\n"); pure err_count)
  | false ↦ (do n ← take_option program_name err_count got; options program_name n gots)
]

-- `*cmd` and `verbose` as they are set behind the options.
unfoldable pub fill_cmd : List Bytes → ℕ → World → World
unfolding sname
fill_cmd argv optind w =
    let verbose = w.verbose || w.debug in
    record w {
      verbose = verbose;
      cmd = record (w.cmd) {
        verbose = verbose;
        debug = w.debug;
        cmd_path = get_elem? argv optind;
        cmd_name = sname (get_elem? argv optind);
        argc = pos (length argv - optind);
        argv = drop optind argv;
        nullify = true;
        slow = true;
      };
    }

-- The file of the copy; `opens` is whether fopen() succeeds.
unfoldable pub copy_to : Bool → Option Bytes → M (Unit {0})
unfolding eprint
copy_to opens none w = ret tt (on_cmd (λ c. record c { copy_fh = false }) w)
copy_to opens (some fname) w =
    if opens
    then ret tt (on_cmd (λ c. record c { copy_fh = true }) w)
    else (do eprint (codes "open('" ++ (fname ++ codes "', \"w\") failed.\n")); exit_with 2)
        (on_cmd (λ c. record c { copy_fh = false }) w)

unfoldable pub open_copy : Bool → M (Unit {0})
unfolding copy_to
open_copy opens w = copy_to opens w.cmd.copy_fname w

-- What the environment decides in a run of `main`: the files behind 1 and 2, the results of
-- getopt_long() and the `optind` they leave, fopen(), what fork() returns in the parent, the stops
-- of the child, and what the uninitialised variables hold.
pub record Env : Type 0 where
  pub out : Option Fid
  pub err : Option Fid
  pub gots : List Got
  pub optind : ℕ
  pub opens : Bool
  pub pid : ℤ
  pub stops : List Stop
  pub junk : Locals

-- From the end of the options to the run; `argv` has at least the program's name, and `optind` is
-- at most its length.
unfoldable pub launch : Env → List Bytes → M (Unit {0})
unfolding run_parent open_copy fill_cmd fshow_str_array usage
launch env argv = do
  modify (fill_cmd argv env.optind)
  when (length argv == 0) (do
    eprint
        (percent_s (sname (get_elem? argv 0)) ++ codes ": Must supply at least a command name.\n")
    usage (percent_s (sname (get_elem? argv 0)))
    exit_with 2)
  verbose ← gets (λ w. w.verbose)
  args ← gets (λ w. w.cmd.argv)
  when verbose (fshow_str_array (some Stream.stderr) args)
  open_copy env.opens
  status ← run_parent env.pid env.stops env.junk
  modify (on_cmd (λ c. record c { child_status = status }))
  exit_with (status / 256)

-- `main`
unfoldable pub main_program : Env → List Bytes → M (Unit {0})
unfolding set_eprint_fh options usage launch
main_program env argv = do
  modify (set_eprint_fh env.out env.err)
  let program_name = percent_s (sname (get_elem? argv 0))
  err_count ← options program_name 0 env.gots
  when (not (err_count == 0)) (do usage program_name; exit_with 1)
  launch env argv
