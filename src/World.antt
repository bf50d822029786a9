-- ===== src/World.antt =====
-- The state of the whole program (its global variables, `cmd_t` of src/inc/errmark.h and the
-- streams) and the actions on it, which may also end the program.
pub mod Returns
pub mod Keeps
pub mod OnlyIo
pub mod DebugPrint
use errmark.Prelude.{ℕ, Bool, Option, none, some, List, ℤ, Bytes}
use errmark.Stdio.{Stream, Io, fwrite}

-- The static variables of src/liberrmark/mark-write.c. A mark is a C string or NULL.
pub record Marks : Type 0 where
  pub start1 : Option Bytes
  pub end1 : Option Bytes
  pub start2 : Option Bytes
  pub end2 : Option Bytes
  pub cur_fd : ℤ

-- `struct cmd`. Of the two FILE pointers it is kept whether they are non-NULL.
pub record Cmd : Type 0 where
  pub argc : ℤ
  pub argv : List Bytes
  pub cmd_path : Option Bytes
  pub cmd_name : Option Bytes
  pub verbose : Bool
  pub debug : Bool
  pub slow : Bool
  pub trace_fbt : Bool
  pub nullify : Bool
  pub copy_fname : Option Bytes
  pub copy_fh : Bool
  pub mark_state : ℕ
  pub child : ℤ
  pub child_status : ℕ
  pub rc : ℤ
  pub child_exited : Bool

-- The registers of the tracee that errmark reads and sets, under the names of run-program.c.
pub record Regs : Type 0 where
  pub reg_syscall : ℕ
  pub reg_arg1 : ℕ
  pub reg_arg2 : ℕ
  pub reg_arg3 : ℕ
  pub reg_retn : ℕ

-- A ptrace(2) request made through `guard_ptrace`.
pub data Request : Type 0 where
  traceme : Request
  getregs : Request
  setregs : Regs → Request
  syscall : Request

-- What the C library and the kernel decide: the block that malloc returns (with what it happens
-- to hold), the text of strerror_r, the entries of _sys_siglist, and the result of
-- strndup(NULL, 0), which the C standard leaves undefined.
pub record Libc : Type 0 where
  pub malloc : ℕ → Option Bytes
  pub malloc_errno : ℤ
  pub strerror : ℤ → Bytes
  pub siglist : ℕ → Option Bytes
  pub dup_null : Option Bytes

pub record World : Type 0 where
  pub marks : Marks
  pub cmd : Cmd
  pub io : Io
  pub requests : List Request
  pub libc : Libc
  pub verbose : Bool
  pub debug : Bool
  pub errprint_fh : Option Stream
  pub dbgprint_fh : Option Stream

-- How a call ends: it returns; or it ends the program by exit(code) or by abort(); or its behaviour
-- is undefined in C (a NULL stream is used, or a buffer overrun); or it waits in wait(2) for an
-- event that has not come.
pub data Outcome {ℓ} (A : Type ℓ) : Type ℓ where
  ret : A → World → Outcome A
  exit : ℕ → World → Outcome A
  abort : World → Outcome A
  undefined : World → Outcome A
  wait : World → Outcome A

abbrev pub M {ℓ} : Type ℓ → Type ℓ
M A = World → Outcome A

abbrev pub bind {ℓ κ} : {A : Type ℓ} {B : Type κ} → Outcome A → (A → M B) → Outcome B
bind (ret a w) f = f a w
bind (exit code w) f = exit code w
bind (abort w) f = abort w
bind (undefined w) f = undefined w
bind (wait w) f = wait w

infixl 5 ◌>>=◌ ◌>>◌
abbrev pub ◌>>=◌ {ℓ κ} : {A : Type ℓ} {B : Type κ} → M A → (A → M B) → M B
◌>>=◌ m f w = bind (m w) f

abbrev pub ◌>>◌ {ℓ} : {B : Type ℓ} → M (Unit {0}) → M B → M B
m >> k = m >>= λ _. k

abbrev pub pure {ℓ} : {A : Type ℓ} → A → M A
pure a w = ret a w

abbrev pub gets {ℓ} : {A : Type ℓ} → (World → A) → M A
gets f w = ret (f w) w

abbrev pub modify : (World → World) → M (Unit {0})
modify f w = ret tt (f w)

-- `if (b) m`
abbrev pub when : Bool → M (Unit {0}) → M (Unit {0})
when Bool.true m = m
when Bool.false m = pure tt

abbrev pub exit_with {ℓ} : {A : Type ℓ} → ℕ → M A
exit_with code w = exit code w

abbrev pub abort_now {ℓ} : {A : Type ℓ} → M A
abort_now w = abort w

-- A change of the streams only.
abbrev pub on_io : (Io → Io) → World → World
on_io f w = record w { io = f w.io }

abbrev pub on_cmd : (Cmd → Cmd) → World → World
on_cmd f w = record w { cmd = f w.cmd }

-- fputs or fprintf to stderr
unfoldable pub print_stderr : Bytes → World → World
unfolding fwrite
print_stderr text = on_io (fwrite Stream.stderr text)

-- fprintf to a FILE pointer variable, which may be NULL
unfoldable pub fprint : Option Stream → Bytes → M (Unit {0})
unfolding fwrite
fprint none text w = undefined w
fprint (some f) text w = ret tt (on_io (fwrite f text) w)

-- the macros `eprint` and `eprintf` of src/inc/cscript.h
unfoldable pub eprint : Bytes → M (Unit {0})
unfolding fprint
eprint text w = fprint w.errprint_fh text w

-- the macro `dbg_printf`
unfoldable pub dbg_printf : Bytes → M (Unit {0})
unfolding fprint
dbg_printf text w = when w.debug (fprint w.dbgprint_fh text) w
