-- ===== src/Cscript/PrintFh.antt =====
-- src/libcscript/set-print-fh.c: the stream for messages. fstat(2) gives a file's identity or fails.
use errmark.Prelude.{
  ℕ, Bool, Option, none, some, ℤ, pos, minus_one, eq_ℤ, ◌==◌, ◌&&◌, ◌≡◌, refl, if◌then◌else◌,
}
use errmark.Stdio.{Stream}
use errmark.World.{World}

pub record Fid : Type 0 where
  pub dev : ℕ
  pub ino : ℕ

-- memcmp() of the two structures, which have no padding
abbrev same_file : Fid → Fid → Bool
same_file a b = a.dev == b.dev && a.ino == b.ino

-- The arguments are what fstat() gives for 1 and for 2.
unfoldable pub stderr_redirected : Option Fid → Option Fid → ℤ
stderr_redirected none err = minus_one
stderr_redirected (some out) none = minus_one
stderr_redirected (some out) (some err) = if same_file err out then pos 0 else pos 1

-- `if (errprint_fh == NULL) errprint_fh = efh`
abbrev or_else : Option Stream → Stream → Option Stream
or_else none efh = some efh
or_else (some fh) efh = some fh

unfoldable pub set_eprint_fh : Option Fid → Option Fid → World → World
unfolding stderr_redirected
set_eprint_fh out err w =
    let efh = if eq_ℤ (stderr_redirected out err) (pos 0) then Stream.stdout else Stream.stderr in
    record w { errprint_fh = or_else w.errprint_fh efh }

or_else-some : (o : Option Stream) (efh : Stream) → (f : Stream) × (or_else o efh ≡ some f)
or_else-some none efh = (efh, refl)
or_else-some (some fh) efh = (fh, refl)

-- There is a stream for messages from then on.
pub set_eprint_fh-some :
    (out err : Option Fid) (w : World)
    → (f : Stream) × ((set_eprint_fh out err w).errprint_fh ≡ some f)
unfolding set_eprint_fh
set_eprint_fh-some out err w = or_else-some w.errprint_fh _
