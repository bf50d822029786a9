-- ===== src/Main/Total.antt =====
-- A whole run of errmark ends, whatever the kernel, the files and malloc answer.
use errmark.Prelude.{
  Option, some, Bool, not, ◌&&◌, [], ◌∷◌, ◌⊎◌, ℕ, ◌<◌, ◌==◌, true, false, List, Bytes, ◌≡◌,
}
use errmark.Stdio.{Stream}
use errmark.World.{Marks, World, Libc}
use errmark.World.Returns.{Returns}
use errmark.World.Keeps.{Allowed}
use errmark.World.OnlyIo.{OnlyIo}
use errmark.Main.{Env}
use errmark.Marks.Skips.{is_empty}
use errmark.Main.Choices.{Choice, verbose, mark, color, copy, wrong}
use errmark.Main.Settings.{wrongs}
use errmark.Run.Total.{some_harm, never_ends}
use errmark.Main.Launched.{ExitsWith, IsReady}

-- The ends that errmark may have: exit(1) where an option is wrong, and otherwise those behind the
-- options.
abbrev pub main_ends : Env → List Choice → World → Allowed
main_ends env cs w = record {
  exits = λ code. ((0 < wrongs cs) × (code ≡ 1)) ⊎ ((wrongs cs ≡ 0) × ExitsWith env w.libc code);
  aborts = (wrongs cs ≡ 0) × (some_harm env.stops ≡ true);
  undefines = ⊥;
  waits = (wrongs cs ≡ 0) × (never_ends env.stops ≡ true);
}

-- No mark has an empty string.
abbrev pub is_given : Choice → Bool
is_given verbose = true
is_given (mark fd m_start m_end) = not (is_empty m_start) && not (is_empty m_end)
is_given (color ent) = true
is_given (copy fname) = true
is_given wrong = true

abbrev pub all_given : List Choice → Bool
all_given [] = true
all_given (c ∷ cs) = is_given c && all_given cs

-- Another result of strndup(NULL, 0).
abbrev pub with_dup_null : Option Bytes → World → World
with_dup_null d w = record w { libc = record (w.libc) { dup_null = d } }

-- What the options come to: none is wrong, or at least one.
data Optioned (f : Stream) (libc : Libc) (cs : List Choice) (m : ℕ) (u : World) : Type 0 where
  all_fine : (m == 0) ≡ true → wrongs cs ≡ 0 → IsReady f libc u → Optioned f libc cs m u
  some_wrong : (m == 0) ≡ false → 0 < wrongs cs → u.errprint_fh ≡ some f → Optioned f libc cs m u
