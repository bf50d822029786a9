-- ===== src/Marks/Transcript.antt =====
-- What marking promises, with no state: neighbouring writes to one descriptor form a run, and each
-- run stands between the start mark and the end mark of its descriptor.
use errmark.Prelude.{
  Option, none, some, List, [], ◌∷◌, ◌++◌, ◌≡◌, refl, sym, Bool, append_assoc, append-nil, Bytes,
  if◌then◌else◌, arith, true, false,
}
use errmark.World.{Marks}

-- The descriptors that are marked.
pub data Fd : Type 0 where
  fd1 fd2 : Fd

abbrev pub same_fd : Fd → Fd → Bool
same_fd fd1 fd1 = true
same_fd fd2 fd2 = true
same_fd fd1 fd2 = false
same_fd fd2 fd1 = false

pub same_fd→eq : (a b : Fd) → same_fd a b ≡ true → a ≡ b
same_fd→eq fd1 fd1 h = refl
same_fd→eq fd2 fd2 h = refl
same_fd→eq fd1 fd2 h = cc
same_fd→eq fd2 fd1 h = cc

-- One write(2) of the traced program: the descriptor and the bytes.
pub record Piece : Type 0 where
  pub fd : Fd
  pub text : Bytes

-- A mark that is NULL shows nothing.
abbrev pub mark_text : Option Bytes → Bytes
mark_text none = []
mark_text (some text) = text

abbrev pub start_of : Marks → Fd → Bytes
start_of m fd1 = mark_text m.start1
start_of m fd2 = mark_text m.start2

abbrev pub end_of : Marks → Fd → Bytes
end_of m fd1 = mark_text m.end1
end_of m fd2 = mark_text m.end2

-- A piece before runs: it joins the first run if that is of its descriptor.
abbrev pub join : Piece → List Piece → List Piece
join p [] = p ∷ []
join p (q ∷ qs) =
    if same_fd p.fd q.fd then record { fd = p.fd; text = p.text ++ q.text } ∷ qs else p ∷ q ∷ qs

unfoldable pub runs : List Piece → List Piece
runs [] = []
runs (p ∷ ps) = join p (runs ps)

abbrev pub brackets : Marks → List Piece → Bytes
brackets m [] = []
brackets m (r ∷ rs) = start_of m r.fd ++ (r.text ++ (end_of m r.fd ++ brackets m rs))

unfoldable pub transcript : Marks → List Piece → Bytes
unfolding runs
transcript m ps = brackets m (runs ps)

-- The descriptor of the last piece, after one of `cur` if there was any.
abbrev pub last_fd : Option Fd → List Piece → Option Fd
last_fd cur [] = cur
last_fd cur (p ∷ ps) = last_fd (some p.fd) ps

-- The end mark of the open run, if there is one.
abbrev pub end_mark : Marks → Option Fd → Bytes
end_mark m none = []
end_mark m (some fd) = end_of m fd

-- What is shown at a change of the descriptor.
abbrev pub switch_text : Marks → Option Fd → Fd → Bytes
switch_text m none fd = start_of m fd
switch_text m (some cur) fd = if same_fd fd cur then [] else end_of m cur ++ start_of m fd

-- The pieces and marks, one after the other, after a piece of `cur`; the last run is left open.
abbrev pub woven : Marks → Option Fd → List Piece → Bytes
woven m cur [] = []
woven m cur (p ∷ ps) = switch_text m cur p.fd ++ (p.text ++ woven m (some p.fd) ps)

-- The runs that follow an open run of `cur`, the end of that run included.
abbrev closing : Marks → Option Fd → List Piece → Bytes
closing m none rs = brackets m rs
closing m (some cur) [] = end_of m cur
closing m (some cur) (r ∷ rs) =
    if same_fd r.fd cur
    then r.text ++ (end_of m r.fd ++ brackets m rs)
    else end_of m cur ++ brackets m (r ∷ rs)

closing-join :
    (m : Marks) (cur : Option Fd) (p : Piece) (rs : List Piece)
    → closing m cur (join p rs) ≡ switch_text m cur p.fd ++ (p.text ++ closing m (some p.fd) rs)
closing-join m none p [] = rw append-nil
closing-join m none p (r ∷ rs) =
    ground (arith, append_assoc p.text r.text (end_of m r.fd ++ brackets m rs))
closing-join m (some cur) p [] = ground (
  arith,
  append-nil (end_of m p.fd),
  append_assoc (end_of m cur) (start_of m p.fd) (p.text ++ end_of m p.fd),
)
closing-join m (some cur) p (r ∷ rs) =
    let rest = end_of m r.fd ++ brackets m rs in
    let later = start_of m r.fd ++ (r.text ++ rest) in
    ground (
      arith,
      same_fd→eq p.fd r.fd,
      same_fd→eq p.fd cur,
      same_fd→eq r.fd p.fd,
      append_assoc p.text r.text rest,
      append_assoc (end_of m cur) (start_of m p.fd) (p.text ++ (r.text ++ rest)),
      append_assoc (end_of m cur) (start_of m p.fd) (p.text ++ (end_of m p.fd ++ later)),
    )

woven-closing :
    (m : Marks) (cur : Option Fd) (ps : List Piece)
    → woven m cur ps ++ end_mark m (last_fd cur ps) ≡ closing m cur (runs ps)
unfolding runs
woven-closing m none [] = refl
woven-closing m (some cur) [] = refl
woven-closing m cur (p ∷ ps) =
    simp (append_assoc, woven-closing m (some p.fd) ps) (sym (closing-join m cur p (runs ps)))

-- Woven from no open run, and closed by the end mark of the last descriptor, the pieces make the
-- transcript.
pub woven-transcript :
    (m : Marks) (ps : List Piece)
    → woven m none ps ++ end_mark m (last_fd none ps) ≡ transcript m ps
unfolding transcript
woven-transcript m ps = woven-closing m none ps
