-- ===== src/Run/Script.antt =====
-- A traced program as a script of events, and the stops that it makes under PTRACE_SYSCALL: two
-- for a write, at its entry and at its exit, and one for each stop of another system call.
use errmark.Prelude.{
  ℕ, ◌+◌, ◌%◌, ◌^◌, ◌<◌, ◌≡◌, ◌≢◌, Bool, Option, none, some, true, false, List, [], ◌∷◌, ◌++◌, ℤ,
  pos, negsuc, Bytes, ◌==◌, if◌then◌else◌,
}
use errmark.World.{Regs}
use errmark.Marks.Transcript.{Fd, fd1, fd2, Piece}
use errmark.Pmem.{Peek}
use errmark.Pmem.Memory.{Traced, bytes_at}
use errmark.Writes.{Stop, sys_write, marked_fd, as_int}
use errmark.Run.PassOn.{copied_part}

-- The registers at the entry and at the exit, and the memory while the program is stopped.
pub record Write : Type 0 where
  pub entry : Regs
  pub leave : Regs
  pub mem : ℕ → ℕ
  pub readable : ℕ → Bool
  pub peek : ℕ → Peek

pub data Event : Type 0 where
  wrote : Write → Event
  called : Regs → Event

-- A stop by SIGTRAP: 0x057f.
abbrev pub trapped : ℕ
trapped = 0x057f

abbrev pub no_peek : ℕ → Peek
no_peek a = Peek.failed 5

abbrev pub stop_with : Regs → (ℕ → Peek) → Stop
stop_with regs peek = record {
  status = trapped;
  regs = regs;
  getregs_errno = none;
  setregs_errno = none;
  syscall_errno = none;
  peek = peek;
}

abbrev pub stops_of : List Event → List Stop
stops_of [] = []
stops_of (wrote wr ∷ es) = stop_with wr.entry wr.peek ∷ stop_with wr.leave no_peek ∷ stops_of es
stops_of (called regs ∷ es) = stop_with regs no_peek ∷ stops_of es

abbrev pub data_of : Write → Bytes
data_of wr = bytes_at wr.mem wr.entry.reg_arg2 wr.entry.reg_arg3

-- Of a write to a marked descriptor: the buffer is readable, does not wrap around, and is not at
-- NULL; if it starts unaligned, so are the 8 bytes at its start.
pub record IsReadable (wr : Write) : Type 0 where
  pub traced : Traced wr.peek wr.mem wr.readable
  pub not_null : 0 < wr.entry.reg_arg2
  pub in_space : wr.entry.reg_arg2 + wr.entry.reg_arg3 < 2 ^ 64
  pub region : (i : ℕ) → i < wr.entry.reg_arg3 → wr.readable (wr.entry.reg_arg2 + i) ≡ true
  pub window :
      wr.entry.reg_arg2 % 8 ≢ 0 → (i : ℕ) → i < 8 → wr.readable (wr.entry.reg_arg2 + i) ≡ true

-- The number in the register of an event of its kind; a write to a marked descriptor is as asked.
abbrev pub IsEventOf : (Write → Type 0) → Event → Type 0
IsEventOf ok (wrote wr) =
    (wr.entry.reg_syscall ≡ sys_write)
    × (wr.leave.reg_syscall ≡ sys_write)
    × (marked_fd (as_int wr.entry.reg_arg1) ≡ true → ok wr)
IsEventOf ok (called regs) = (regs.reg_syscall == sys_write) ≡ false

abbrev pub AreEventsOf : (Write → Type 0) → List Event → Type 0
AreEventsOf ok [] = Unit {0}
AreEventsOf ok (e ∷ es) = IsEventOf ok e × AreEventsOf ok es

abbrev pub IsEvent : Event → Type 0
IsEvent = IsEventOf IsReadable

abbrev pub AreEvents : List Event → Type 0
AreEvents = AreEventsOf IsReadable

pub AreEventsOf-map :
    (ok ok' : Write → Type 0) (es : List Event)
    → ((wr : Write) → ok wr → ok' wr)
    → AreEventsOf ok es
    → AreEventsOf ok' es
AreEventsOf-map ok ok' [] f ev = tt
AreEventsOf-map ok ok' (wrote wr ∷ es) f ((a, b, r), ev) =
    ((a, b, λ h. f wr (r h)), AreEventsOf-map ok ok' es f ev)
AreEventsOf-map ok ok' (called regs ∷ es) f (a, ev) = (a, AreEventsOf-map ok ok' es f ev)

abbrev pub fd_of : ℤ → Option Fd
fd_of (pos n) = if n == 1 then some fd1 else if n == 2 then some fd2 else none
fd_of (negsuc n) = none

abbrev pub piece_at : Option Fd → Bytes → Option Piece
piece_at none text = none
piece_at (some fd) text = some (record { fd = fd; text = text })

-- The writes to marked descriptors, with the text that is shown of each.
abbrev pub piece_by : (Write → Bytes) → Event → Option Piece
piece_by text (wrote wr) = piece_at (fd_of (as_int wr.entry.reg_arg1)) (text wr)
piece_by text (called regs) = none

-- The same with their data.
abbrev pub piece_of : Event → Option Piece
piece_of = piece_by data_of

abbrev pub put : Option Piece → List Piece → List Piece
put none ps = ps
put (some p) ps = p ∷ ps

abbrev pub pieces_by : (Write → Bytes) → List Event → List Piece
pieces_by text [] = []
pieces_by text (e ∷ es) = put (piece_by text e) (pieces_by text es)

abbrev pub pieces : List Event → List Piece
pieces = pieces_by data_of

-- What is written to stderr, if it is copied.
abbrev pub errors_of : Bool → List Piece → Bytes
errors_of copying [] = []
errors_of copying (p ∷ ps) = copied_part copying p.fd p.text ++ errors_of copying ps
