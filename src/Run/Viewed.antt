-- ===== src/Run/Viewed.antt =====
-- The view that the events of a script lead to.
use errmark.Prelude.{
  ◌≡◌, refl, sym, Option, none, some, List, [], ◌∷◌, ◌++◌, Bytes, append-nil, append_assoc,
}
use errmark.Marks.Transcript.{Piece, last_fd, woven}
use errmark.Run.Shows.{Setup, View}
use errmark.Run.Weave.{after}
use errmark.Run.Script.{Event, Write, data_of, piece_by, pieces_by, put, errors_of}

-- The view after the events.
abbrev pub run_view_by : (Write → Bytes) → Setup → List Event → View → View
run_view_by text s [] v = v
run_view_by text s (e ∷ es) v = run_view_by text s es (after s (piece_by text e) v)

abbrev pub run_view : Setup → List Event → View → View
run_view = run_view_by data_of

-- The view after the events: the pieces and marks are woven into the text.
pub record Viewed (s : Setup) (v : View) (ps : List Piece) (u : View) : Type 0 where
  pub text_is : u.text ≡ v.text ++ woven s.marks v.cur ps
  pub copy_is : u.copy ≡ v.copy ++ errors_of s.copying ps
  pub cur_is : u.cur ≡ last_fd v.cur ps

Viewed-put :
    (s : Setup) (v u : View) (p : Option Piece) (ps : List Piece)
    → Viewed s (after s p v) ps u
    → Viewed s v (put p ps) u
Viewed-put s v u none ps h = record { text_is = h.text_is; copy_is = h.copy_is; cur_is = h.cur_is }
Viewed-put s v u (some p) ps h = record {
  text_is = simp (append_assoc) at h.text_is;
  copy_is = simp (append_assoc) at h.copy_is;
  cur_is = h.cur_is;
}

pub run_view-Viewed :
    (text : Write → Bytes) (s : Setup) (es : List Event) (v : View)
    → Viewed s v (pieces_by text es) (run_view_by text s es v)
run_view-Viewed text s [] v = record {
  text_is = sym (append-nil v.text);
  copy_is = sym (append-nil v.copy);
  cur_is = refl;
}
run_view-Viewed text s (e ∷ es) v =
    Viewed-put s v (run_view_by text s es (after s (piece_by text e) v)) (piece_by text e)
      (pieces_by text es) (run_view-Viewed text s es (after s (piece_by text e) v))
