-- ===== src/Main/Done.antt =====
-- How a round of the loop over the options does what is asked for.
use errmark.Prelude.{
  ℕ, ◌+◌, Bool, true, false, not, ◌||◌, ◌&&◌, ◌==◌, some, [], ◌∷◌, ◌++◌, Bytes, codes, ◌≡◌, refl,
  sym, ap, subst, ◌∙◌, if◌then◌else◌, arith,
}
use errmark.Stdio.{Stream, fwrite}
use errmark.World.{World, ret, bind, modify, when, eprint, print_stderr, ◌>>◌}
use errmark.World.Returns.{Returns, Returns-bind, Returns-map}
use errmark.World.OnlyIo.{OnlyIo, OnlyIo-refl, OnlyIo-io, OnlyIo-trans, eprint-OnlyIo, when-OnlyIo}
use errmark.Cscript.Show.{fshow_str, as_char, char_text}
use errmark.Cscript.Ascii.{are_ascii, put_chars, fshow_str-ascii}
use errmark.Cscript.Color.{ColorEsc, Names, lookup_color-Names}
use errmark.Marks.Specs.{parse_mark_specs, setmark}
use errmark.Marks.Parsing.{fd_digit, parse_mark_specs-set_marks}
use errmark.Options.{opt_mark, opt_color, set_color}
use errmark.Main.{
  Got, is_long_option, vischar_r, unknown_option, debug_option, switch_optc, take_option,
}
use errmark.Main.Choices.{
  Choice, mark, color, Tells, at_verbose, at_mark, at_color, at_copy, at_wrong, put, wrong_of,
}

put_chars-OnlyIo : (f : Stream) (s : Bytes) (w : World) → OnlyIo w (put_chars f s w)
unfolding put_chars
put_chars-OnlyIo f [] w = OnlyIo-refl w
put_chars-OnlyIo f (c ∷ s) w =
    OnlyIo-trans (OnlyIo-io (fwrite f (char_text (as_char c))) w) (put_chars-OnlyIo f s _)

said : (text : Bytes) (w : World) → OnlyIo w (print_stderr text w)
unfolding print_stderr
said text w = OnlyIo-io (fwrite Stream.stderr text) w

-- an accepted argument under --verbose
pub show_spec-OnlyIo :
    (s : Bytes) (w : World)
    → are_ascii s ≡ true
    → Returns
        ((do
          modify (print_stderr (codes "--mark='"))
          fshow_str (some Stream.stderr) (some s)
          modify (print_stderr (codes "'\n")))
          w)
        (λ _. OnlyIo w)
unfolding print_stderr
show_spec-OnlyIo s w h =
    let v = print_stderr (codes "--mark='") w in
    subst (λ o. Returns (bind o (λ _. modify (print_stderr (codes "'\n")))) (λ _. OnlyIo w))
      (sym (fshow_str-ascii Stream.stderr s v h).0)
      (OnlyIo-trans (OnlyIo-trans (said (codes "--mark='") w) (put_chars-OnlyIo Stream.stderr s v))
        (said (codes "'\n") _))

-- `opt_mark` where the argument is accepted
marked-OnlyIo :
    (s : Bytes) (w v : World)
    → are_ascii s ≡ true
    → parse_mark_specs s w ≡ ret true v
    → Returns (opt_mark s w) (λ _. OnlyIo v)
unfolding opt_mark
marked-OnlyIo s w v h e =
    Returns-bind (λ ok u. (ok ≡ true) × (u ≡ v)) (λ _. OnlyIo v) (parse_mark_specs s w) _
      (subst (λ o. Returns o (λ ok u. (ok ≡ true) × (u ≡ v))) (sym e) (refl, refl))
      λ ok u (t, q).
        rw (t, q)
          (Returns-bind (λ _. OnlyIo v) (λ _. OnlyIo v) _ _
            (when-OnlyIo (v.verbose || not true) _ v v (OnlyIo-refl v) (show_spec-OnlyIo s v h))
            λ _ x k. k)

pub opt_color-put :
    (name : Bytes) (ent : ColorEsc) (w : World)
    → Names name ent
    → opt_color name w ≡ ret tt (put (color ent) w)
unfolding opt_color set_color setmark
opt_color-put name ent w h = rw ((lookup_color-Names name ent).1 h) refl

-- a wrong option
wrong-OnlyIo :
    (f : Stream) (program_name : Bytes) (got : Got) (w : World)
    → w.errprint_fh ≡ some f
    → Returns (unknown_option program_name got w) (λ _. OnlyIo w)
unfolding unknown_option
wrong-OnlyIo f program_name got w h =
    Returns-bind (λ _. OnlyIo w) (λ _. OnlyIo w) _ _ (eprint-OnlyIo program_name w h)
      λ _ u k.
        Returns-bind (λ _. OnlyIo w) (λ _. OnlyIo w) _ _ (further u (codes ": ") k)
          λ _ v k'. either (is_long_option got.word) v k'
  where
    further : (u : World) (text : Bytes) → OnlyIo w u → Returns (eprint text u) (λ _. OnlyIo w)
    further u text k =
        Returns-map (λ _. OnlyIo u) (λ _. OnlyIo w) _
          (eprint-OnlyIo text u (ap (λ (x : World). x.errprint_fh) k.same ∙ h))
          λ _ v k'. OnlyIo-trans k k'

    either :
        (b : Bool) (v : World)
        → OnlyIo w v
        → Returns
            ((if b
                then eprint (codes "unknown long option, '" ++ (got.word ++ codes "'\n"))
                else eprint
                    (codes "unknown short option, '" ++ (vischar_r 10 got.optopt ++ codes "'\n")))
              v)
            (λ _. OnlyIo w)
    either true v k = further v _ k
    either false v k = further v _ k

-- The options without the messages of --debug.
without_debug :
    (program_name : Bytes) (n : ℕ) (got : Got) (w : World) (P : ℕ → World → Type 0)
    → w.debug ≡ false
    → Returns
        (switch_optc program_name n
          (if got.optc == b'?' && got.optopt == b'?' then b'h' else got.optc)
          got
          w)
        P
    → Returns (take_option program_name n got w) P
unfolding take_option
without_debug program_name n got w P d r =
    let optc = if got.optc == b'?' && got.optopt == b'?' then b'h' else got.optc in
    subst
      (λ b.
        Returns (bind (when b (debug_option got.optc) w) (λ _. switch_optc program_name n optc got))
          P)
      (sym d) r

-- The switch does what is asked for, and counts a wrong option.
switch_optc-put :
    (f : Stream) (program_name : Bytes) (n : ℕ) (c : Choice) (got : Got) (w : World)
    → Tells c got
    → w.debug ≡ false
    → w.errprint_fh ≡ some f
    → Returns
        (switch_optc program_name n
          (if got.optc == b'?' && got.optopt == b'?' then b'h' else got.optc)
          got
          w)
        (λ m u. (m ≡ n + wrong_of c) × OnlyIo (put c w) u)
unfolding switch_optc
switch_optc-put f program_name n _ _ w (at_verbose arg opt text) d h = (omega arith, OnlyIo-refl _)
switch_optc-put f program_name n _ _ w (at_mark fd sep m_start m_end opt text z l a) d h =
    let spec = fd_digit fd ∷ sep ∷ (m_start ++ sep ∷ m_end) in
    Returns-bind (λ _. OnlyIo (put (mark fd m_start m_end) w))
      (λ m u. (m ≡ n + 0) × OnlyIo (put (mark fd m_start m_end) w) u) (opt_mark spec w) _
      (marked-OnlyIo spec w _ a (parse_mark_specs-set_marks fd sep m_start m_end w z l d))
      λ _ u k. (omega arith, k)
switch_optc-put f program_name n _ _ w (at_color name ent opt text known) d h =
    Returns-bind (λ _. OnlyIo (put (color ent) w))
      (λ m u. (m ≡ n + 0) × OnlyIo (put (color ent) w) u) (opt_color name w) _
      (subst (λ o. Returns o (λ _. OnlyIo (put (color ent) w)))
        (sym (opt_color-put name ent w known)) (OnlyIo-refl _))
      λ _ u k. (omega arith, k)
switch_optc-put f program_name n _ _ w (at_copy fname opt text) d h = (omega arith, OnlyIo-refl _)
switch_optc-put f program_name n _ _ w (at_wrong arg opt text other) d h =
    let got : Got = record { optc = b'?'; optarg = arg; optopt = opt; word = text } in
    rw other (
      Returns-bind (λ _. OnlyIo w) (λ m u. (m ≡ n + 1) × OnlyIo w u)
        (unknown_option program_name got w) _ (wrong-OnlyIo f program_name got w h)
        λ _ u k. (refl, k))

-- A round of the loop does what is asked for, and counts a wrong option.
pub take_option-put :
    (f : Stream) (program_name : Bytes) (n : ℕ) (c : Choice) (got : Got) (w : World)
    → Tells c got
    → w.debug ≡ false
    → w.errprint_fh ≡ some f
    → Returns (take_option program_name n got w) (λ m u. (m ≡ n + wrong_of c) × OnlyIo (put c w) u)
take_option-put f program_name n c got w t d h =
    without_debug program_name n got w _ d (switch_optc-put f program_name n c got w t d h)
