-- ===== src/World/OnlyIo.antt =====
-- Changes of the streams only.
use errmark.Prelude.{Bool, true, false, some, Bytes, ◌≡◌, refl, sym, ap, subst, ◌∙◌, if◌then◌else◌}
use errmark.Stdio.{Io, Stream, fwrite}
use errmark.World.{World, M, on_io, eprint, fprint, when}
use errmark.World.Returns.{Returns}

-- From `w` to `w'`, nothing but the streams has changed.
pub record OnlyIo (w w' : World) : Type 0 where
  pub same : w' ≡ record w { io = w'.io }

pub OnlyIo-refl : (w : World) → OnlyIo w w
OnlyIo-refl w = record { same = refl }

pub OnlyIo-io : (f : Io → Io) (w : World) → OnlyIo w (on_io f w)
OnlyIo-io f w = record { same = refl }

pub OnlyIo-trans : {u v w : World} → OnlyIo u v → OnlyIo v w → OnlyIo u w
OnlyIo-trans {u} {v} {w} h k = record {
  same = k.same ∙ ap (λ (x : World). record x { io = w.io }) h.same;
}

pub OnlyIo-if : (b : Bool) {w x y : World} → OnlyIo w x → OnlyIo w y → OnlyIo w (if b then x else y)
OnlyIo-if true h k = h
OnlyIo-if false h k = k

-- A stream for messages that is not NULL.
pub eprint-OnlyIo :
    {f : Stream} (text : Bytes) (w : World)
    → w.errprint_fh ≡ some f
    → Returns (eprint text w) (λ _. OnlyIo w)
unfolding eprint fprint
eprint-OnlyIo {f} text w h =
    subst (λ o. Returns (fprint o text w) (λ _. OnlyIo w)) (sym h) (OnlyIo-io (fwrite f text) w)

pub when-OnlyIo :
    (b : Bool) (m : M (Unit {0})) (w v : World)
    → OnlyIo w v
    → Returns (m v) (λ _. OnlyIo w)
    → Returns (when b m v) (λ _. OnlyIo w)
when-OnlyIo true m w v h k = k
when-OnlyIo false m w v h k = h
