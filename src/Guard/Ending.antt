-- ===== src/Guard/Ending.antt =====
-- How `guard_ptrace` ends, for each answer of the kernel.
use errmark.Prelude.{
  ℤ, pos, minus_one, eq_ℤ, eq_ℤ→eq, Option, none, some, Bool, true, false, not, ◌&&◌, List, [], ◌∷◌,
  ◌++◌, Bytes, codes, decimal, signed_decimal, ◌≡◌, refl, ap, ◌∙◌, if◌then◌else◌,
}
use errmark.Stdio.{Chunk, write, fwrite, fwrite_trace}
use errmark.World.{World, Libc, Request, Outcome, ret, abort, on_cmd, on_io, print_stderr}
use errmark.Cscript.Esym.{decode_esym_r}
use errmark.Cscript.Errors.{fshow_errno}
use errmark.Guard.{esrch, guard_ptrace, after_ptrace, trace, ask, close_marks, request_number}
use errmark.Guard.Chunks.{end_chunks, chunks_at, close-sent, close-OnlyIo}
use errmark.Run.Streams.{trace-OnlyIo}

-- The request has been made, and nothing else has changed but the streams and, as given,
-- `child_exited`.
pub record Sent (request : Request) (exited : Bool) (w w' : World) : Type 0 where
  pub same : w' ≡ record w {
    io = w'.io;
    requests = w.requests ++ request ∷ [];
    cmd = record (w.cmd) { child_exited = exited };
  }

-- The message of a failed request, on stderr.
abbrev pub failure : ℤ → Libc → Chunk
failure errno libc = record {
  to = 2;
  text =
      codes "ptrace() failed - "
      ++ (signed_decimal errno
          ++ (codes "="
              ++ (decode_esym_r 12 errno ++ (codes "=" ++ (libc.strerror errno ++ codes ".\n")))));
}

-- The three ways in which the function ends, by the answer.
pub data Guarded (request : Request) (w : World) : Option ℤ → Outcome ℤ → Type 0 where
  succeeded :
      {w' : World}
      → Sent request true w w'
      → w'.io.sent ≡ w.io.sent
      → Guarded request w none (ret (pos 0) w')
  no_process :
      {w' : World}
      → Sent request w.cmd.child_exited w w'
      → w'.io.sent ≡ w.io.sent
      → Guarded request w (some esrch) (ret minus_one w')
  fatal :
      {errno : ℤ} {w' : World}
      → (errno ≡ esrch → ⊥)
      → Sent request true w w'
      → w'.io.sent ≡ (w.io.sent ++ end_chunks w) ++ failure errno w.libc ∷ []
      → Guarded request w (some errno) (abort w')

-- What is on its way to the descriptors is the same.
record SameOut (w w' : World) : Type 0 where
  sent_is : w'.io.sent ≡ w.io.sent
  pending_is : w'.io.pending ≡ w.io.pending

trace-SameOut : (text : Bytes) (w : World) → SameOut w (trace text w)
unfolding trace fwrite_trace
trace-SameOut text w = either w.cmd.trace_fbt
  where
    either : (b : Bool) → SameOut w (if b then on_io (fwrite_trace text) w else w)
    either true = record { sent_is = refl; pending_is = refl }
    either false = record { sent_is = refl; pending_is = refl }

module _ (request : Request) (w : World) where
  -- the world behind the call, but for the flag
  called : World
  called = trace (codes "< ptrace\n") (
      ask request
        (trace (codes "> ptrace(" ++ (decimal (request_number request) ++ codes ")\n")) w))

  called-SameOut : SameOut w called
  unfolding called
  called-SameOut =
      let before =
        trace-SameOut (codes "> ptrace(" ++ (decimal (request_number request) ++ codes ")\n")) w in
      let behind = trace-SameOut (codes "< ptrace\n") (
        ask request
          (trace (codes "> ptrace(" ++ (decimal (request_number request) ++ codes ")\n")) w)) in
      record {
        sent_is = behind.sent_is ∙ before.sent_is;
        pending_is = behind.pending_is ∙ before.pending_is;
      }

  called_same : called ≡ record w { io = called.io; requests = w.requests ++ request ∷ [] }
  unfolding called
  called_same =
      let before =
        trace-OnlyIo (codes "> ptrace(" ++ (decimal (request_number request) ++ codes ")\n")) w in
      let behind = trace-OnlyIo (codes "< ptrace\n") (
        ask request
          (trace (codes "> ptrace(" ++ (decimal (request_number request) ++ codes ")\n")) w)) in
      behind.same ∙ ap (λ (x : World). record (ask request x) { io = called.io }) before.same

  flagged : World
  unfolding called
  flagged = on_cmd (λ c. record c { child_exited = true }) called

  flagged-Sent : Sent request true w flagged
  unfolding flagged
  flagged-Sent = record {
    same = ap (λ (x : World). on_cmd (λ c. record c { child_exited = true }) x) called_same;
  }

  called-Sent : Sent request w.cmd.child_exited w called
  called-Sent = record { same = called_same }

module _ (request : Request) (w : World) where
  flagged-sent : (flagged request w).io.sent ≡ w.io.sent
  unfolding flagged
  flagged-sent = (called-SameOut request w).sent_is

  flagged_chunks : end_chunks (flagged request w) ≡ end_chunks w
  unfolding flagged
  flagged_chunks =
      ap end_chunks (flagged-Sent request w).same
      ∙ ap (λ (p : Bytes). chunks_at p w.cmd.mark_state w.marks)
          (called-SameOut request w).pending_is

  closed_same : close_marks (flagged request w) ≡ record w {
    io = (close_marks (flagged request w)).io;
    requests = w.requests ++ request ∷ [];
    cmd = record (w.cmd) { child_exited = true };
  }
  closed_same =
      (close-OnlyIo (flagged request w)).same
      ∙ ap (λ (x : World). record x { io = (close_marks (flagged request w)).io })
          (flagged-Sent request w).same

  closed_sent : (close_marks (flagged request w)).io.sent ≡ w.io.sent ++ end_chunks w
  closed_sent = close-sent (flagged request w) ∙ rw (flagged-sent, flagged_chunks) refl

  differ : {b : Bool} → b ≡ false → b ≡ true → ⊥
  differ p q = cc

  -- the world in which the program is aborted
  aborted : ℤ → World
  aborted errno = fshow_errno (codes "ptrace() failed - ") errno (close_marks (flagged request w))

  aborted-Guarded :
      (errno : ℤ) → (errno ≡ esrch → ⊥) → Guarded request w (some errno) (abort (aborted errno))
  unfolding aborted fshow_errno print_stderr fwrite write
  aborted-Guarded errno alive =
      fatal alive
        (record { same = ap (λ (x : World). record x { io = (aborted errno).io }) closed_same })
        (ap (λ (t : List Chunk). t ++ failure errno (close_marks (flagged request w)).libc ∷ [])
            closed_sent
          ∙ ap (λ (l : Libc). (w.io.sent ++ end_chunks w) ++ failure errno l ∷ [])
              (ap (λ (x : World). x.libc) closed_same))

  -- A request that succeeds returns 0 and sets `child_exited`; one that fails with ESRCH returns -1
  -- and leaves the flag; one that fails with another errno, which is not 0, ends the program by
  -- abort(), with the flag set, the end mark of an open run sent behind what the buffer of stdout
  -- held, and then the message with the number, the symbol and the text of the errno on stderr. The
  -- request is added to those made, and nothing else changes but the streams; nothing is sent to 1
  -- or 2 but by a failure other than ESRCH.
  pub guard_ptrace-Guarded :
      (answer : Option ℤ)
      → (answer ≡ some (pos 0) → ⊥)
      → Guarded request w answer (guard_ptrace request answer w)
  unfolding guard_ptrace after_ptrace flagged called aborted
  guard_ptrace-Guarded none nonzero =
      succeeded (flagged-Sent request w) (called-SameOut request w).sent_is
  guard_ptrace-Guarded (some errno) nonzero =
      decided (eq_ℤ errno (pos 0)) (eq_ℤ errno esrch) refl refl
    where
      decided :
          (a b : Bool)
          → eq_ℤ errno (pos 0) ≡ a
          → eq_ℤ errno esrch ≡ b
          → Guarded request w (some errno) (
              let w' = if not b then flagged request w else called request w in
              if not a && not b
              then abort (fshow_errno (codes "ptrace() failed - ") errno (close_marks w'))
              else ret minus_one w')
      decided true b zero_is e = absurd (nonzero (ap some (eq_ℤ→eq errno (pos 0) zero_is)))
      decided false true d gone =
          rw (eq_ℤ→eq errno esrch gone)
            (no_process (called-Sent request w) (called-SameOut request w).sent_is)
      decided false false d other =
          aborted-Guarded errno λ same. differ other (ap (λ e. eq_ℤ e esrch) same)
