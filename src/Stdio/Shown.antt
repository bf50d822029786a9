-- ===== src/Stdio/Shown.antt =====
-- What a terminal shows that is open as both file descriptors, once stdout is flushed.
use errmark.Prelude.{
  ℕ, List, [], ◌∷◌, ◌++◌, ◌≡◌, refl, append_assoc, append-nil, Bytes, take-append-drop,
}
use errmark.Stdio.{Chunk, Io, write, fflush_stdout, fwrite_stdout}

abbrev pub texts : List Chunk → Bytes
texts [] = []
texts (c ∷ cs) = c.text ++ texts cs

pub texts-append : (cs ds : List Chunk) → texts (cs ++ ds) ≡ texts cs ++ texts ds
texts-append [] ds = refl
texts-append (c ∷ cs) ds = simp (texts-append cs ds, append_assoc)

-- The bytes sent to either descriptor, in order, and then what stdout's buffer still holds.
unfoldable pub shown : Io → Bytes
shown io = texts io.sent ++ io.pending

pub shown-fwrite_stdout :
    (text : Bytes) (io : Io) → shown (fwrite_stdout text io) ≡ shown io ++ text
unfolding shown fwrite_stdout
shown-fwrite_stdout text io = simp (texts-append, append-nil, append_assoc, take-append-drop)

pub shown-fflush_stdout : (io : Io) → shown (fflush_stdout io) ≡ shown io
unfolding shown fflush_stdout
shown-fflush_stdout io = simp (texts-append, append-nil)

-- A write(2) that follows a flush is shown behind all that was written before.
pub shown-write :
    (fd : ℕ) (text : Bytes) (io : Io) → shown (write fd text (fflush_stdout io)) ≡ shown io ++ text
unfolding shown fflush_stdout
shown-write fd text io = simp (texts-append, append-nil, append_assoc)
