-- ===== src/Cscript/Ended.antt =====
-- What `fshow_wait_status` says of each way in which a child may have changed its state.
use errmark.Prelude.{
  ℕ, ◌+◌, ◌-◌, ◌*◌, ◌%◌, ◌<◌, ◌≤◌, ◌≡◌, refl, ◌∙◌, Bool, Bool-cases, inl, inr, true, false, Option,
  none, some, List, [], ◌∷◌, ◌++◌, Bytes, codes, length, length-append, take, take-over, decimal,
  length-decimal, ltb, leb, ◌&&◌, if◌then◌else◌, arith,
}
use errmark.World.{World, Libc, ret, abort, print_stderr}
use errmark.Cscript.WaitStatus.{
  decode_signal_r, unknown_signal, fshow_wait_status, show_status, show_killed, show_stopped,
  wcoredump, termsig, exit_code,
}

-- How a child ended or stopped, and the status with which wait(2) tells of it.
pub data Ended : Type 0 where
  exited : ℕ → Ended
  killed : ℕ → Bool → Ended
  stopped : ℕ → Ended
  continued : Ended

abbrev pub core_bit : Bool → ℕ
core_bit true = 128
core_bit false = 0

abbrev pub status_of : Ended → ℕ
status_of (exited code) = code * 256
status_of (killed sig core) = sig + core_bit core
status_of (stopped sig) = sig * 256 + 127
status_of continued = 0xffff

-- The numbers that there are.
abbrev pub InRange : Ended → Type 0
InRange (exited code) = code < 256
InRange (killed sig core) = (0 < sig) × (sig < 127)
InRange (stopped sig) = sig < 256
InRange continued = Unit {0}

abbrev known_or : Option Bytes → Bytes → Bytes
known_or none text = text
known_or (some desc) text = desc

-- The name of a signal: its entry in the table, or a text with its number.
abbrev pub signal_text : Libc → ℕ → Bytes
unfolding unknown_signal
signal_text libc sig =
    if ltb sig 65 then known_or (libc.siglist sig) (unknown_signal sig) else unknown_signal sig

-- The pieces of text printed for it.
abbrev pub describe : Libc → Ended → List Bytes
describe libc (exited code) = (codes "  exited, status=" ++ (decimal code ++ codes "\n")) ∷ []
describe libc (killed sig true) =
    (codes "  killed by signal "
      ++ (decimal sig ++ (codes " (" ++ (signal_text libc sig ++ codes ")"))))
    ∷ codes " (core dumped)"
    ∷ codes "\n"
    ∷ []
describe libc (killed sig false) =
    (codes "  killed by signal "
      ++ (decimal sig ++ (codes " (" ++ (signal_text libc sig ++ codes ")"))))
    ∷ codes "\n"
    ∷ []
describe libc (stopped sig) =
    (codes "  stopped by signal "
      ++ (decimal sig ++ (codes " (" ++ (signal_text libc sig ++ codes ")\n"))))
    ∷ []
describe libc continued = codes "  continued\n" ∷ []

-- The texts to stderr, one after the other.
abbrev pub say : List Bytes → World → World
unfolding print_stderr
say [] w = w
say (text ∷ texts) w = say texts (print_stderr text w)

short_text : (sig : ℕ) → sig < 256 → length (unknown_signal sig) ≤ 24
unfolding unknown_signal
short_text sig h = elim (Bool-cases (leb 34 sig && leb sig 64)) [
  | inl e ↦ ground (
    arith,
    length-append (codes "Real-time signal ") (decimal (sig - 34)),
    length-decimal (sig - 34) 2 (omega arith),
  )
  | inr ne ↦ ground (
    arith,
    length-append (codes "Unknown signal ") (decimal sig),
    length-decimal sig 2 (omega arith),
  )
]

composed :
    (text : Bytes) (w : World)
    → length text ≤ 24
    → (if ltb (length text) 31 then ret (take 30 text) w else abort w) ≡ ret text w
composed text w h = ground (arith, take-over 30 text (omega arith))

picked :
    (b : Bool) (o : Option Bytes) (text : Bytes) (w : World)
    → length text ≤ 24
    → (if b
        then elim o [
          | some desc ↦ ret desc w
          | none ↦ if ltb (length text) 31 then ret (take 30 text) w else abort w
        ]
        else if ltb (length text) 31
        then ret (take 30 text) w
        else abort w)
      ≡ ret (if b then known_or o text else text) w
picked true none text w h = composed text w h
picked true (some desc) text w h = refl
picked false o text w h = composed text w h

pub decode_signal_r-signal_text :
    (sig : ℕ) (w : World) → sig < 256 → decode_signal_r 32 sig w ≡ ret (signal_text w.libc sig) w
unfolding decode_signal_r
decode_signal_r-signal_text sig w h =
    picked (ltb sig 65) (w.libc.siglist sig) (unknown_signal sig) w (short_text sig h)

show_status-exited :
    (code : ℕ) (w : World)
    → code < 256
    → show_status (code * 256) w
      ≡ ret tt (print_stderr (codes "  exited, status=" ++ (decimal code ++ codes "\n")) w)
unfolding show_status
show_status-exited code w h = let same : exit_code (code * 256) ≡ code = omega arith in ground arith

show_killed-describe :
    (status sig : ℕ) (core : Bool) (w : World)
    → termsig status ≡ sig
    → wcoredump status ≡ core
    → sig < 256
    → show_killed status w ≡ ret tt (say (describe w.libc (killed sig core)) w)
unfolding show_killed
show_killed-describe status sig true w p q h = ground (arith, decode_signal_r-signal_text sig w h)
show_killed-describe status sig false w p q h = ground (arith, decode_signal_r-signal_text sig w h)

show_stopped-describe :
    (status sig : ℕ) (w : World)
    → exit_code status ≡ sig
    → sig < 256
    → show_stopped status w ≡ ret tt (say (describe w.libc (stopped sig)) w)
unfolding show_stopped
show_stopped-describe status sig w p h = ground (arith, decode_signal_r-signal_text sig w h)

by_killed :
    (status : ℕ) (w : World)
    → 0 < termsig status
    → termsig status < 127
    → show_status status w ≡ show_killed status w
unfolding show_status
by_killed status w h k = ground arith

by_stopped :
    (status : ℕ) (w : World) → status % 256 ≡ 127 → show_status status w ≡ show_stopped status w
unfolding show_status
by_stopped status w h = ground arith

core_set : (sig : ℕ) (core : Bool) → sig < 127 → wcoredump (sig + core_bit core) ≡ core
core_set sig true h = ground arith
core_set sig false h = ground arith

low_bits : (sig : ℕ) (core : Bool) → sig < 127 → termsig (sig + core_bit core) ≡ sig
low_bits sig true h = omega arith
low_bits sig false h = omega arith

-- For each way in which a child may have ended or stopped, with a code or signal in its range,
-- `fshow_wait_status` of the status that tells of it prints the name of the program and then the
-- description of just that way, and returns: the buffer for the name of the signal suffices.
pub fshow_wait_status-describe :
    (name : Bytes) (e : Ended) (w : World)
    → InRange e
    → fshow_wait_status name (status_of e) w
      ≡ ret tt (say ((name ++ codes " ...\n") ∷ describe w.libc e) w)
unfolding fshow_wait_status
fshow_wait_status-describe name (exited code) w h = show_status-exited code _ h
fshow_wait_status-describe name (killed sig core) w h =
    let named = print_stderr (name ++ codes " ...\n") w in
    let low = low_bits sig core h.1 in
    by_killed (sig + core_bit core) named (omega arith) (omega arith)
    ∙ show_killed-describe (sig + core_bit core) sig core named low (core_set sig core h.1)
        (omega arith)
fshow_wait_status-describe name (stopped sig) w h =
    let named = print_stderr (name ++ codes " ...\n") w in
    by_stopped (sig * 256 + 127) named (omega arith)
    ∙ show_stopped-describe (sig * 256 + 127) sig named (omega arith) h
fshow_wait_status-describe name continued w h = refl
