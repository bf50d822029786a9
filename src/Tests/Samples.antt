-- ===== src/Tests/Samples.antt =====
-- A concrete C library, memory, state and script.
use errmark.Prelude.{
  ℕ, zero, suc, ◌<◌, ◌^◌, ◌+◌, ◌%◌, ◌≡◌, refl, Bool, true, false, none, some, List, [], ◌∷◌, pos,
  minus_one, codes, length, replicate, arith,
}
use errmark.World.{World, Libc, Regs}
use errmark.Pmem.{Peek, word}
use errmark.Pmem.Memory.{bytes_at, Traced}
use errmark.Writes.{Locals, Stop}
use errmark.Run.PassOn.{Allocates}
use errmark.Run.Leaves.{IsQuiet}
use errmark.Run.Script.{Write, Event, wrote, called, IsReadable, AreEvents, stop_with, no_peek}

-- Every byte of the memory is the last decimal digit of its address, as text.
abbrev pub mem : ℕ → ℕ
mem a = b'0' + a % 10

abbrev pub peek : ℕ → Peek
peek a = word (bytes_at mem a 8)

abbrev pub all_readable : ℕ → Bool
all_readable a = true

pub mem-Traced : Traced peek mem all_readable
mem-Traced = record {
  peek_word = λ a h. refl;
  peek_fails = λ a i lt h. cc;
  whole_words = λ a. refl;
}

abbrev pub libc : Libc
libc = record {
  malloc = λ n. some (replicate n 0);
  malloc_errno = pos 12;
  strerror = λ e. codes "No such process";
  siglist = λ n. none;
  dup_null = some [];
}

length-replicate : (n : ℕ) → length {A = ℕ} (replicate n 0) ≡ n
length-replicate zero = refl
length-replicate (suc n) = rw (length-replicate n)

pub libc-Allocates : Allocates libc
libc-Allocates n = (replicate n 0, refl, length-replicate n)

-- `errmark --mark=2:<:> --copy=…`, before the fork
abbrev pub world : World
world = record {
  marks = record {
    start1 = none;
    end1 = none;
    start2 = some (codes "<");
    end2 = some (codes ">");
    cur_fd = minus_one;
  };
  cmd = record {
    argc = pos 1;
    argv = codes "prog" ∷ [];
    cmd_path = some (codes "prog");
    cmd_name = some (codes "prog");
    verbose = false;
    debug = false;
    slow = true;
    trace_fbt = false;
    nullify = true;
    copy_fname = some (codes "copy");
    copy_fh = true;
    mark_state = 0;
    child = pos 0;
    child_status = 0;
    rc = pos 0;
    child_exited = false;
  };
  io = record { pending = []; spill = λ text. 0; sent = []; copied = []; traced = [] };
  requests = [];
  libc = libc;
  verbose = false;
  debug = false;
  errprint_fh = none;
  dbgprint_fh = none;
}

abbrev pub write_regs : ℕ → ℕ → ℕ → Regs
write_regs fd addr len = record {
  reg_syscall = 1;
  reg_arg1 = fd;
  reg_arg2 = addr;
  reg_arg3 = len;
  reg_retn = 0;
}

abbrev pub write_of : ℕ → ℕ → ℕ → Write
write_of fd addr len = record {
  entry = write_regs fd addr len;
  leave = write_regs fd addr 0;
  mem = mem;
  readable = all_readable;
  peek = peek;
}

-- The registers at another system call.
abbrev pub no_call : Regs
no_call = record { reg_syscall = 59; reg_arg1 = 0; reg_arg2 = 0; reg_arg3 = 0; reg_retn = 0 }

-- A stop of another system call, and then writes to 1, 2, 2 and 3.
abbrev pub first_event : Event
first_event = called no_call

abbrev pub later_events : List Event
later_events =
    wrote (write_of 1 4096 2)
    ∷ wrote (write_of 2 4099 9)
    ∷ wrote (write_of 2 4112 3)
    ∷ wrote (write_of 3 0 5)
    ∷ []

pub write_of-IsReadable :
    (fd addr len : ℕ) → 0 < addr → addr + len < 2 ^ 64 → IsReadable (write_of fd addr len)
write_of-IsReadable fd addr len h k = record {
  traced = mem-Traced;
  not_null = h;
  in_space = k;
  region = λ i lt. refl;
  window = λ un i lt. refl;
}

abbrev pub script : List Event
script = first_event ∷ later_events

pub script-AreEvents : AreEvents script
script-AreEvents = (
  refl,
  (
    (refl, refl, λ _. write_of-IsReadable 1 4096 2 (omega arith) (omega arith)),
    (
      (refl, refl, λ _. write_of-IsReadable 2 4099 9 (omega arith) (omega arith)),
      (
        (refl, refl, λ _. write_of-IsReadable 2 4112 3 (omega arith) (omega arith)),
        ((refl, refl, λ h. cc), tt),
      ),
    ),
  ),
)

-- What the variables of `ptrace_cmd` hold before they are set.
abbrev pub junk : Locals
junk = record { regs = write_regs 7 7 7; toggle = 9; wfd = pos 7; waddr = 7; wlen = 7 }

-- The last round: a wait() status, with everything else in order.
abbrev pub ending : ℕ → Stop
ending status = record (stop_with (write_regs 0 0 0) no_peek) { status = status }

pub quiet : IsQuiet world
quiet = record { no_debug = refl; no_cmd_debug = refl; no_verbose = refl }
