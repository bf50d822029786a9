-- ===== src/Run/PassOn.antt =====
-- The data of a write, shown and copied.
use errmark.Prelude.{
  ℕ, ◌≡◌, sym, ap, subst, ◌∙◌, Bool, Option, none, some, true, false, [], ◌++◌, append-nil, pos,
  Bytes, length, drop, drop-all, if◌then◌else◌,
}
use errmark.Stdio.{fwrite_stdout, fwrite_copy}
use errmark.Stdio.Shown.{shown, shown-fwrite_stdout}
use errmark.World.{World, Libc, ret, on_io}
use errmark.World.Returns.{Returns, Returns-bind}
use errmark.Marks.Transcript.{Fd, fd1, fd2}
use errmark.Pmem.{Peek, Copied, pmem_copy, pmem_fwrite}
use errmark.Pmem.Agree.{pmem_fwrite-Agrees, pmem_fwrite-rest}
use errmark.Cscript.Errors.{allocated, guard_malloc}
use errmark.Writes.{copy_to_both, copy_to_stdout, pass_on}
use errmark.Run.Shows.{Setup, View, fd_number, Shows}
use errmark.Run.Steps.{Shows-io}

-- The part of a write's data that goes to the copy.
abbrev pub copied_part : Bool → Fd → Bytes → Bytes
copied_part copying fd1 text = []
copied_part false fd2 text = []
copied_part true fd2 text = text

-- malloc returns a block of the size that is asked for.
abbrev pub Allocates : Libc → Type 0
Allocates libc = (n : ℕ) → (block : Bytes) × (libc.malloc n ≡ some block) × (length block ≡ n)

abbrev block_of : Option Bytes → Bytes
block_of none = []
block_of (some block) = block

-- What a buffer holds once the first part of it is stored.
abbrev pub filled : Bytes → Option Bytes → Bytes
filled out block = out ++ drop (length out) (block_of block)

-- What is passed on of a write, by what can be read of it, and by the block of malloc where it goes
-- to the copy, too.
abbrev pub passed_of : Libc → Bool → (ℕ → Peek) → Fd → ℕ → ℕ → Bytes
passed_of libc copying peek fd1 waddr wlen = (pmem_copy peek waddr wlen).out
passed_of libc false peek fd2 waddr wlen = (pmem_copy peek waddr wlen).out
passed_of libc true peek fd2 waddr wlen = filled (pmem_copy peek waddr wlen).out (libc.malloc wlen)

module _ {s : Setup} (m : Allocates s.libc) (peek : ℕ → Peek) (waddr wlen : ℕ) where
  stdout_Shows :
      {v : View} {w : World}
      → Shows s v w
      → Shows s
          (record v { text = v.text ++ (pmem_copy peek waddr wlen).out })
          (copy_to_stdout peek waddr wlen w)
  unfolding copy_to_stdout
  stdout_Shows {v} {w} h =
      Shows-io (λ io. (pmem_fwrite peek waddr wlen io).1)
        (v.text ++ (pmem_copy peek waddr wlen).out) v.copy h
        ((pmem_fwrite-Agrees peek waddr wlen w.io).1
          ∙ ap (λ (t : Bytes). t ++ (pmem_copy peek waddr wlen).out) h.base.text_is)
        ((pmem_fwrite-rest peek waddr wlen w.io).0 ∙ h.base.copy_is)

  malloc_Returns :
      {v : View} {w : World}
      → Shows s v w
      → Returns (guard_malloc wlen w) (λ b w'. (b ≡ block_of (s.libc.malloc wlen)) × Shows s v w')
  unfolding guard_malloc allocated
  malloc_Returns {v} {w} h =
      let (block, e, _) = m wlen in
      subst
        (λ o.
          Returns (allocated wlen o w) (λ b w'. (b ≡ block_of (s.libc.malloc wlen)) × Shows s v w'))
        (sym (ap (λ (k : Libc). k.malloc wlen) h.base.libc_is ∙ e)) (sym (ap block_of e), h)

  both_written :
      (held : Bytes) {v : View} {w : World}
      → Shows s v w
      → Shows s
          (record v { text = v.text ++ held; copy = v.copy ++ held })
          (on_io (fwrite_copy held) (on_io (fwrite_stdout held) w))
  both_written held {v} {w} h =
      Shows-io (fwrite_copy held) (v.text ++ held) (v.copy ++ held)
        (Shows-io (fwrite_stdout held) (v.text ++ held) v.copy h
          (shown-fwrite_stdout held w.io ∙ ap (λ (t : Bytes). t ++ held) h.base.text_is)
          (unfold fwrite_stdout in h.base.copy_is))
        (unfold shown fwrite_copy in
          shown-fwrite_stdout held w.io ∙ ap (λ (t : Bytes). t ++ held) h.base.text_is)
        (unfold fwrite_copy fwrite_stdout in ap (λ (t : Bytes). t ++ held) h.base.copy_is)

  both_Shows :
      {v : View} {w : World}
      → Shows s v w
      → let held = filled (pmem_copy peek waddr wlen).out (s.libc.malloc wlen) in
        Returns
          (copy_to_both peek waddr wlen w)
          (λ _. Shows s (record v { text = v.text ++ held; copy = v.copy ++ held }))
  unfolding copy_to_both
  both_Shows {v} {w} h =
      Returns-bind (λ b. λ w'. (b ≡ block_of (s.libc.malloc wlen)) × Shows s v w') _
        (guard_malloc wlen w) _ (malloc_Returns h)
        λ ebuf w' (same, h').
          let held =
            (pmem_copy peek waddr wlen).out ++ drop (length (pmem_copy peek waddr wlen).out) ebuf in
          subst
            (λ t.
              Shows s (record v { text = v.text ++ t; copy = v.copy ++ t })
                (on_io (fwrite_copy held) (on_io (fwrite_stdout held) w')))
            (ap
              (λ (b : Bytes).
                (pmem_copy peek waddr wlen).out ++ drop (length (pmem_copy peek waddr wlen).out) b)
              same)
            (both_written held h')

  by_copy :
      (copying : Bool) {v : View} {w : World}
      → Shows s v w
      → let text = passed_of s.libc copying peek fd2 waddr wlen in
        Returns
          (if copying
            then copy_to_both peek waddr wlen w
            else ret tt (copy_to_stdout peek waddr wlen w))
          (λ _.
            Shows s
              (record v { text = v.text ++ text; copy = v.copy ++ copied_part copying fd2 text }))
  by_copy true h = both_Shows h
  by_copy false {v} {w} h = rw append-nil (stdout_Shows h)

  -- The data of a write, whatever of it can be read.
  pub pass_on-passed :
      (fd : Fd) {v : View} {w : World}
      → Shows s v w
      → let text = passed_of s.libc s.copying peek fd waddr wlen in
        Returns (pass_on peek (fd_number fd) waddr wlen w) (λ _.
          Shows s
            (record v { text = v.text ++ text; copy = v.copy ++ copied_part s.copying fd text }))
  unfolding pass_on
  pass_on-passed fd1 {v} {w} h = rw append-nil (stdout_Shows h)
  pass_on-passed fd2 {v} {w} h =
      subst
        (λ b.
          Returns
            (if b
              then copy_to_both peek waddr wlen w
              else ret tt (copy_to_stdout peek waddr wlen w))
            (λ _. Shows s (record v {
              text = v.text ++ passed_of s.libc s.copying peek fd2 waddr wlen;
              copy =
                  v.copy
                  ++ copied_part s.copying fd2 (passed_of s.libc s.copying peek fd2 waddr wlen);
            })))
        (sym h.base.copying_is) (by_copy s.copying h)

-- Where the whole region is stored, it is what is passed on.
pub passed_of-whole :
    (libc : Libc) (copying : Bool) (peek : ℕ → Peek) (fd : Fd) (waddr wlen : ℕ) (text : Bytes)
    → Allocates libc
    → pmem_copy peek waddr wlen ≡ record { rv = pos wlen; out = text }
    → length text ≡ wlen
    → passed_of libc copying peek fd waddr wlen ≡ text
passed_of-whole libc copying peek fd1 waddr wlen text m whole size =
    ap (λ (c : Copied). c.out) whole
passed_of-whole libc false peek fd2 waddr wlen text m whole size = ap (λ (c : Copied). c.out) whole
passed_of-whole libc true peek fd2 waddr wlen text m whole size =
    let (block, e, len) = m wlen in
    ap (λ (c : Copied). filled c.out (libc.malloc wlen)) whole
    ∙ ap (λ (b : Option Bytes). filled text b) e
    ∙ ap (λ (n : ℕ). text ++ drop n block) (size ∙ sym len)
    ∙ ap (λ (t : Bytes). text ++ t) (drop-all block)
    ∙ append-nil text
