-- ===== src/Cscript/DebugFh.antt =====
-- src/libcscript/set-print-fh.c: the stream for debugging output. fopen(3) is told by the names for
-- which it succeeds, getenv(3) by the variables that are set.
use errmark.Prelude.{
  Bool, Option, none, some, List, [], ◌∷◌, ◌++◌, Bytes, codes, take, ◌≡◌, refl, if◌then◌else◌,
}
use errmark.Stdio.{Stream}
use errmark.Cscript.Esym.{snprintf}

-- What `dbgprint_fh` may point to.
pub data DebugFh : Type 0 where
  closed : DebugFh
  file : Bytes → DebugFh
  stream : Stream → DebugFh

-- `dbgprint_fh = errprint_fh`, and `stderr` if that is NULL
abbrev pub errors_or_stderr : Option Stream → DebugFh
errors_or_stderr (some fh) = stream fh
errors_or_stderr none = stream Stream.stderr

module _ (fopen : Bytes → Bool) (getenv : Bytes → Option Bytes) (program_name : Bytes)
    (errprint_fh : Option Stream) where
  -- from the file descriptor 3 on
  unfoldable pub descriptor_three : DebugFh
  descriptor_three =
      if fopen (codes "/proc/fd/self/3")
      then file (codes "/proc/fd/self/3")
      else errors_or_stderr errprint_fh

  -- from the value of the variable on
  unfoldable pub named_by : Option Bytes → DebugFh
  unfolding descriptor_three
  named_by none = descriptor_three
  named_by (some dbg_fname) = if fopen dbg_fname then file dbg_fname else descriptor_three

  unfoldable pub set_debug_fh : Option Bytes → DebugFh
  unfolding named_by
  set_debug_fh none = closed
  set_debug_fh (some (c ∷ s)) = if fopen (c ∷ s) then file (c ∷ s) else closed
  set_debug_fh (some []) = named_by (getenv (snprintf 32 (codes "DEBUG." ++ program_name)))

-- The first file of a list that can be opened.
abbrev pub first_opened : (Bytes → Bool) → List Bytes → DebugFh → DebugFh
first_opened fopen [] last = last
first_opened fopen (name ∷ names) last =
    if fopen name then file name else first_opened fopen names last

abbrev pub listed : Option Bytes → List Bytes
listed none = []
listed (some value) = value ∷ []

-- The files that are tried, in order, for a name; an empty name is one that is not given.
abbrev pub candidates : (Bytes → Option Bytes) → Bytes → Bytes → List Bytes
candidates getenv program_name [] =
    listed (getenv (codes "DEBUG." ++ take 25 program_name)) ++ codes "/proc/fd/self/3" ∷ []
candidates getenv program_name (c ∷ s) = (c ∷ s) ∷ []

-- Where none of them can be opened.
abbrev pub otherwise : Option Stream → Bytes → DebugFh
otherwise errprint_fh [] = errors_or_stderr errprint_fh
otherwise errprint_fh (c ∷ s) = closed

-- For a name that is not NULL, `set_debug_fh` takes the first file that can be opened: of the name
-- itself, or else no stream, if it is not empty; and otherwise of the value of the variable
-- `DEBUG.` with the first 25 characters of the name of the program, if it is set, and of
-- /proc/fd/self/3, or else the stream for messages, or else stderr.
pub set_debug_fh-first_opened :
    (fopen : Bytes → Bool) (getenv : Bytes → Option Bytes) (program_name : Bytes)
    (errprint_fh : Option Stream) (dbg_fname : Bytes)
    → set_debug_fh fopen getenv program_name errprint_fh (some dbg_fname)
      ≡ first_opened fopen
          (candidates getenv program_name dbg_fname)
          (otherwise errprint_fh dbg_fname)
unfolding set_debug_fh named_by descriptor_three
set_debug_fh-first_opened fopen getenv program_name errprint_fh (c ∷ s) = refl
set_debug_fh-first_opened fopen getenv program_name errprint_fh [] =
    by_value (getenv (codes "DEBUG." ++ take 25 program_name))
  where
    by_value :
        (o : Option Bytes)
        → named_by fopen getenv program_name errprint_fh o
          ≡ first_opened fopen
              (listed o ++ codes "/proc/fd/self/3" ∷ [])
              (errors_or_stderr errprint_fh)
    by_value none = refl
    by_value (some value) = refl
