-- ===== src/Cscript/WaitStatus.antt =====
-- src/libcscript/fshow-wait-status.c and decode-signal.c, and the macros of <sys/wait.h> that the
-- program uses. A status is an `int` that the kernel makes, below 2 ^ 16.
use errmark.Prelude.{
  ℕ, ◌+◌, ◌-◌, ◌/◌, ◌%◌, Bool, not, ◌&&◌, none, some, ◌++◌, Bytes, codes, length, decimal, hex2,
  ltb, leb, ◌==◌, if◌then◌else◌,
}
use errmark.World.{M, ret, abort, print_stderr, modify, when, ◌>>=◌, ◌>>◌}
use errmark.Cscript.Esym.{snprintf}

-- status & 0x7f
abbrev pub termsig : ℕ → ℕ
termsig status = status % 128

-- (status >> 8) & 0xff
abbrev pub exit_code : ℕ → ℕ
exit_code status = status / 256 % 256

abbrev pub wifexited : ℕ → Bool
wifexited status = termsig status == 0

-- ((signed char)((status & 0x7f) + 1) >> 1) > 0
abbrev pub wifsignaled : ℕ → Bool
wifsignaled status = let c = termsig status + 1 in ltb c 128 && ltb 0 (c / 2)

abbrev pub wifstopped : ℕ → Bool
wifstopped status = status % 256 == 0x7f

abbrev pub wifcontinued : ℕ → Bool
wifcontinued status = status == 0xffff

abbrev pub wcoredump : ℕ → Bool
wcoredump status = not (status / 128 % 2 == 0)

abbrev pub nsig : ℕ
nsig = 65

abbrev pub sigrtmin : ℕ
sigrtmin = 34

abbrev pub sigrtmax : ℕ
sigrtmax = 64

-- The text for a signal that the table does not name, and the number in it.
unfoldable pub unknown_signal : ℕ → Bytes
unfolding decimal
unknown_signal sig =
    if leb sigrtmin sig && leb sig sigrtmax
    then codes "Real-time signal " ++ decimal (sig - sigrtmin)
    else codes "Unknown signal " ++ decimal sig

-- `sig` is not negative where this program calls it; `assert` aborts.
unfoldable pub decode_signal_r : ℕ → ℕ → M Bytes
unfolding unknown_signal
decode_signal_r sz sig w =
    let text = unknown_signal sig in
    let composed = if ltb (length text) (sz - 1) then ret (snprintf (sz - 1) text) w else abort w in
    if ltb sig nsig
    then elim (w.libc.siglist sig) [ some desc ↦ ret desc w | none ↦ composed ]
    else composed

unfoldable pub show_killed : ℕ → M (Unit {0})
unfolding decode_signal_r decimal print_stderr
show_killed status = do
  let sig = termsig status
  desc ← decode_signal_r 32 sig
  modify (
      print_stderr
        (codes "  killed by signal " ++ (decimal sig ++ (codes " (" ++ (desc ++ codes ")")))))
  when (wcoredump status) (modify (print_stderr (codes " (core dumped)")))
  modify (print_stderr (codes "\n"))

unfoldable pub show_stopped : ℕ → M (Unit {0})
unfolding decode_signal_r decimal print_stderr
show_stopped status = do
  let sig = exit_code status
  desc ← decode_signal_r 32 sig
  modify (
      print_stderr
        (codes "  stopped by signal " ++ (decimal sig ++ (codes " (" ++ (desc ++ codes ")\n")))))

-- What follows the name of the program.
unfoldable pub show_status : ℕ → M (Unit {0})
unfolding show_killed show_stopped hex2
show_status status =
    if wifexited status
    then modify
        (print_stderr (codes "  exited, status=" ++ (decimal (exit_code status) ++ codes "\n")))
    else if wifsignaled status
    then show_killed status
    else if wifstopped status
    then show_stopped status
    else if wifcontinued status
    then modify (print_stderr (codes "  continued\n"))
    else modify
        (print_stderr (codes "  *** INTERNAL ERROR *** status=x" ++ (hex2 status ++ codes "\n")))

-- fshow_wait_status(stderr, name, status)
unfoldable pub fshow_wait_status : Bytes → ℕ → M (Unit {0})
unfolding show_status
fshow_wait_status name status = do
  modify (print_stderr (name ++ codes " ...\n"))
  show_status status
