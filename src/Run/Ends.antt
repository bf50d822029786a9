-- ===== src/Run/Ends.antt =====
-- Which changes of the child's state end the loop, and with which code errmark exits then.
use errmark.Prelude.{
  ℕ, ◌+◌, ◌*◌, ◌/◌, ◌<◌, Bool, not, true, false, ◌&&◌, ◌||◌, ◌==◌, ◌≡◌, ◌⊎◌, refl, ap, ◌∙◌, inl,
  inr, arith,
}
use errmark.Cscript.WaitStatus.{wifstopped, exit_code}
use errmark.Cscript.Ended.{Ended, exited, killed, stopped, continued, status_of, InRange}
use errmark.Run.{ends, sigtrap, sigchld}

-- The child is taken to be at a stop of the trace: also where it exited with 0.
abbrev pub goes_on : Ended → Bool
goes_on (exited code) = code == 0
goes_on (killed sig core) = false
goes_on (stopped sig) = sig == sigtrap || sig == sigchld
goes_on continued = false

-- The bits of the status from 8 on.
abbrev pub exit_of : Ended → ℕ
exit_of (exited code) = code
exit_of (killed sig core) = 0
exit_of (stopped sig) = sig
exit_of continued = 255

-- The status as the loop reads it.
ends_by :
    (status : ℕ) (zero_is stopped_is trap chld : Bool)
    → (status == 0) ≡ zero_is
    → wifstopped status ≡ stopped_is
    → (exit_code status == sigtrap) ≡ trap
    → (exit_code status == sigchld) ≡ chld
    → ends status ≡ (not zero_is && not (stopped_is && (trap || chld)))
ends_by status zero_is stopped_is trap chld a b c d = rw (a, b, c, d) refl

code_zero : (code : ℕ) → (code * 256 == 0) ≡ (code == 0)
code_zero code = ground arith

code_unstopped : (code : ℕ) → wifstopped (code * 256) ≡ false
code_unstopped code = ground arith

keep_test : (b c : Bool) → (not b && not (false && c)) ≡ not b
keep_test true c = refl
keep_test false c = refl

killed_ends :
    (sig extra : ℕ) → 0 < sig → sig < 127 → (extra ≡ 128) ⊎ (extra ≡ 0) → ends (sig + extra) ≡ true
killed_ends sig extra r k (inl e) =
    ends_by (sig + extra) false false _ _ (ground arith) (ground arith) refl refl
killed_ends sig extra r k (inr e) =
    ends_by (sig + extra) false false _ _ (ground arith) (ground arith) refl refl

stopped_code : (sig : ℕ) → sig < 256 → exit_code (sig * 256 + 127) ≡ sig
stopped_code sig h = omega arith

-- For each way in which a child may have ended or stopped, with a code or signal in its range, the
-- status that tells of it ends the loop, unless the child has exited with 0 or is stopped by
-- SIGTRAP or SIGCHLD; and its bits from 8 on are the code, 0 for a child that was killed, the
-- signal of a stop, and 255 for a child that was continued.
pub ends-goes_on :
    (e : Ended)
    → InRange e
    → (ends (status_of e) ≡ not (goes_on e)) × (status_of e / 256 ≡ exit_of e)
ends-goes_on (exited code) r = (
  ends_by (code * 256) (code == 0) false _ _ (code_zero code) (code_unstopped code) refl refl
      ∙ keep_test (code == 0)
          (exit_code (code * 256) == sigtrap || exit_code (code * 256) == sigchld),
  omega arith,
)
ends-goes_on (killed sig true) (r, k) = (killed_ends sig 128 r k (inl refl), omega arith)
ends-goes_on (killed sig false) (r, k) = (killed_ends sig 0 r k (inr refl), omega arith)
ends-goes_on (stopped sig) r = (
  ends_by (sig * 256 + 127) false true (sig == sigtrap) (sig == sigchld) (ground arith)
      (ground arith) (ap (λ n. n == sigtrap) (stopped_code sig r))
      (ap (λ n. n == sigchld) (stopped_code sig r)),
  omega arith,
)
ends-goes_on continued r = (refl, refl)
