-- ===== src/Marks/Reader.antt =====
-- A reader of the terminal that knows the marks, given by its laws, and what it makes of a
-- transcript.
use errmark.Prelude.{
  ℕ, Bool, true, ◌&&◌, Option, none, some, List, [], ◌∷◌, ◌++◌, append_assoc, append-nil, Bytes,
  left_of, right_of, ◌≡◌, refl, sym, ap, ◌∙◌,
}
use errmark.World.{Marks}
use errmark.Marks.Transcript.{
  Fd, fd1, fd2, Piece, start_of, end_of, switch_text, end_mark, last_fd, woven, transcript,
  woven-transcript,
}

-- The bytes of the writes, each with its descriptor.
abbrev pub tag : Fd → Bytes → List (Fd × ℕ)
tag fd [] = []
tag fd (c ∷ cs) = (fd, c) ∷ tag fd cs

abbrev pub tagged : List Piece → List (Fd × ℕ)
tagged [] = []
tagged (p ∷ ps) = tag p.fd p.text ++ tagged ps

-- All that the program writes passes the test.
abbrev pub all_pass : (Bytes → Bool) → List Piece → Bool
all_pass plain [] = true
all_pass plain (p ∷ ps) = plain p.text && all_pass plain ps

-- A stronger test passes less.
pub all_pass-imply :
    (p q : Bytes → Bool)
    → ((text : Bytes) → p text ≡ true → q text ≡ true)
    → (ps : List Piece) → all_pass p ps ≡ true
    → all_pass q ps ≡ true
all_pass-imply p q h [] l = refl
all_pass-imply p q h (r ∷ rs) l =
    rw
      (
        h r.text (left_of (p r.text) (all_pass p rs) l),
        all_pass-imply p q h rs (right_of (p r.text) (all_pass p rs) l),
      )
      refl

-- At a run that is open or none, and what is still to be read, `read` gives the bytes with their
-- descriptors; outside of a run it skips a start mark, and then is in a run; it skips an end mark in
-- its run and outside; and in a run it takes texts that are `plain` as they are.
pub record Reads (plain : Bytes → Bool) (read : Option Fd → Bytes → List (Fd × ℕ)) (m : Marks)
    : Type 0 where
  pub at_nothing : read none [] ≡ []
  pub at_text :
      (fd : Fd) (text rest : Bytes)
      → plain text ≡ true
      → read (some fd) (text ++ rest) ≡ tag fd text ++ read (some fd) rest
  pub at_start : (fd : Fd) (rest : Bytes) → read none (start_of m fd ++ rest) ≡ read (some fd) rest
  pub at_end : (fd : Fd) (rest : Bytes) → read (some fd) (end_of m fd ++ rest) ≡ read none rest
  pub at_end_again : (fd : Fd) (rest : Bytes) → read none (end_of m fd ++ rest) ≡ read none rest

module _ {plain : Bytes → Bool} {read : Option Fd → Bytes → List (Fd × ℕ)} {m : Marks}
    (h : Reads plain read m) where
  read-from :
      (a b : Fd) (rest : Bytes)
      → read (some a) ((end_of m a ++ start_of m b) ++ rest) ≡ read (some b) rest
  read-from a b rest =
      ap (read (some a)) (append_assoc (end_of m a) (start_of m b) rest)
      ∙ h.at_end a (start_of m b ++ rest)
      ∙ h.at_start b rest

  read-switch :
      (cur : Option Fd) (fd : Fd) (rest : Bytes)
      → read cur (switch_text m cur fd ++ rest) ≡ read (some fd) rest
  read-switch none fd rest = h.at_start fd rest
  read-switch (some fd1) fd1 rest = refl
  read-switch (some fd1) fd2 rest = read-from fd1 fd2 rest
  read-switch (some fd2) fd1 rest = read-from fd2 fd1 rest
  read-switch (some fd2) fd2 rest = refl

  -- An end mark, in a run or where none is open.
  read-end_mark :
      (cur : Option Fd) (rest : Bytes) → read cur (end_mark m cur ++ rest) ≡ read none rest
  read-end_mark none rest = refl
  read-end_mark (some fd) rest = h.at_end fd rest

  read-again :
      (cur : Option Fd) (rest : Bytes) → read none (end_mark m cur ++ rest) ≡ read none rest
  read-again none rest = refl
  read-again (some fd) rest = h.at_end_again fd rest

  read-woven :
      (cur : Option Fd) (ps : List Piece) (rest : Bytes)
      → all_pass plain ps ≡ true
      → read cur (woven m cur ps ++ rest) ≡ tagged ps ++ read (last_fd cur ps) rest
  read-woven cur [] rest l = refl
  read-woven cur (p ∷ ps) rest l =
      let others = woven m (some p.fd) ps in
      ap (read cur) (
        append_assoc (switch_text m cur p.fd) (p.text ++ others) rest
        ∙ ap (λ (t : Bytes). switch_text m cur p.fd ++ t) (append_assoc p.text others rest))
      ∙ read-switch cur p.fd (p.text ++ (others ++ rest))
      ∙ h.at_text p.fd p.text (others ++ rest) (left_of (plain p.text) (all_pass plain ps) l)
      ∙ ap (λ (t : List (Fd × ℕ)). tag p.fd p.text ++ t)
          (read-woven (some p.fd) ps rest (right_of (plain p.text) (all_pass plain ps) l))
      ∙ sym (append_assoc (tag p.fd p.text) (tagged ps) _)

  -- The transcript, and then anything.
  pub read-transcript :
      (ps : List Piece) (rest : Bytes)
      → all_pass plain ps ≡ true
      → read none (transcript m ps ++ rest) ≡ tagged ps ++ read none rest
  read-transcript ps rest l =
      ap (λ (t : Bytes). read none (t ++ rest)) (sym (woven-transcript m ps))
      ∙ ap (read none) (append_assoc (woven m none ps) (end_mark m (last_fd none ps)) rest)
      ∙ read-woven none ps (end_mark m (last_fd none ps) ++ rest) l
      ∙ ap (λ (t : List (Fd × ℕ)). tagged ps ++ t) (read-end_mark (last_fd none ps) rest)

  -- The transcript, and the end mark once more, or twice more.
  pub read-once :
      (ps : List Piece)
      → all_pass plain ps ≡ true
      → read none (transcript m ps ++ end_mark m (last_fd none ps)) ≡ tagged ps
  read-once ps l =
      let cur = last_fd none ps in
      read-transcript ps (end_mark m cur) l
      ∙ ap (λ (t : Bytes). tagged ps ++ read none t) (sym (append-nil (end_mark m cur)))
      ∙ ap (λ (t : List (Fd × ℕ)). tagged ps ++ t) (read-again cur [] ∙ h.at_nothing)
      ∙ append-nil (tagged ps)

  pub read-twice :
      (ps : List Piece)
      → all_pass plain ps ≡ true
      → read none
          (transcript m ps ++ (end_mark m (last_fd none ps) ++ end_mark m (last_fd none ps)))
        ≡ tagged ps
  read-twice ps l =
      let cur = last_fd none ps in
      read-transcript ps (end_mark m cur ++ end_mark m cur) l
      ∙ ap (λ (t : List (Fd × ℕ)). tagged ps ++ t) (read-again cur (end_mark m cur))
      ∙ sym (read-transcript ps (end_mark m cur) l)
      ∙ read-once ps l

-- Of a reader that knows of marks for stderr only: what it takes the next byte for.
abbrev pub side : Option Fd → Fd
side none = fd1
side (some fd) = fd

-- Only stderr is marked. `told` skips the start mark behind stdout's bytes, and the end mark
-- everywhere.
pub record ReadsStderr (plain : Bytes → Bool) (told : Fd → Bytes → List (Fd × ℕ)) (m : Marks)
    : Type 0 where
  pub no_start1 : m.start1 ≡ none
  pub no_end1 : m.end1 ≡ none
  pub nothing : told fd1 [] ≡ []
  pub plain_text :
      (fd : Fd) (text rest : Bytes)
      → plain text ≡ true
      → told fd (text ++ rest) ≡ tag fd text ++ told fd rest
  pub starting : (rest : Bytes) → told fd1 (start_of m fd2 ++ rest) ≡ told fd2 rest
  pub ending : (fd : Fd) (rest : Bytes) → told fd (end_of m fd2 ++ rest) ≡ told fd1 rest

module _ {plain : Bytes → Bool} {told : Fd → Bytes → List (Fd × ℕ)} {m : Marks}
    (h : ReadsStderr plain told m) where
  told-start : (fd : Fd) (rest : Bytes) → told fd1 (start_of m fd ++ rest) ≡ told fd rest
  told-start fd1 rest = rw h.no_start1 refl
  told-start fd2 rest = h.starting rest

  told-end : (fd : Fd) (rest : Bytes) → told fd (end_of m fd ++ rest) ≡ told fd1 rest
  told-end fd1 rest = rw h.no_end1 refl
  told-end fd2 rest = h.ending fd2 rest

  told-end_again : (fd : Fd) (rest : Bytes) → told fd1 (end_of m fd ++ rest) ≡ told fd1 rest
  told-end_again fd1 rest = rw h.no_end1 refl
  told-end_again fd2 rest = h.ending fd1 rest

  pub ReadsStderr-Reads : Reads plain (λ cur. told (side cur)) m
  ReadsStderr-Reads = record {
    at_nothing = h.nothing;
    at_text = h.plain_text;
    at_start = told-start;
    at_end = told-end;
    at_end_again = told-end_again;
  }
