-- ===== src/World/DebugPrint.antt =====
-- The other macros of src/inc/cscript.h that print for debugging; the code uses none of them.
use errmark.Prelude.{ℕ, [], ◌∷◌, ◌++◌, Bytes, codes, decimal, false, ◌≡◌, refl}
use errmark.World.{World, M, ret, fprint, dbg_printf}

-- dbg_print(str)
unfoldable pub dbg_print : Bytes → M (Unit {0})
unfolding fprint
dbg_print str w = fprint w.dbgprint_fh str w

-- dbg_putchar(c)
unfoldable pub dbg_putchar : ℕ → M (Unit {0})
unfolding fprint
dbg_putchar c w = fprint w.dbgprint_fh (c ∷ []) w

-- HERE, in a file and at a line
unfoldable pub here : Bytes → ℕ → M (Unit {0})
unfolding dbg_printf decimal
here file line =
    dbg_printf (codes "\n===> " ++ (file ++ (codes ", line " ++ (decimal line ++ codes "\n"))))

-- HERE_FN, in a function too
unfoldable pub here_fn : Bytes → ℕ → Bytes → M (Unit {0})
unfolding dbg_printf decimal
here_fn file line function = dbg_printf (
    codes "\n===> "
    ++ (file ++ (codes ", line " ++ (decimal line ++ (codes ", " ++ (function ++ codes "\n"))))))

-- Where debugging is off, HERE and HERE_FN do nothing.
here-silent :
    (file : Bytes) (line : ℕ) (function : Bytes) (w : World)
    → w.debug ≡ false
    → (here file line w ≡ ret tt w) × (here_fn file line function w ≡ ret tt w)
unfolding here here_fn
here-silent file line function w h = (rw h refl, rw h refl)
