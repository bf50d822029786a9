-- ===== src/Main/Settings.antt =====
-- The loop over the options, and what it sets.
use errmark.Prelude.{
  ℕ, ◌+◌, ◌≤◌, ◌<◌, Bool-cases, true, false, some, List, [], ◌∷◌, Bytes, codes, ◌++◌, ltb, ◌≡◌,
  refl, ap, ◌∙◌, inl, inr, arith,
}
use errmark.Stdio.{Stream, Io}
use errmark.World.{World, Request, eprint, pure, ◌>>◌}
use errmark.World.Returns.{Returns, Returns-bind, Returns-map}
use errmark.World.OnlyIo.{OnlyIo, OnlyIo-refl, eprint-OnlyIo}
use errmark.Marks.Transcript.{fd1, fd2}
use errmark.Main.{Got, take_option, options}
use errmark.Main.Choices.{Choice, verbose, mark, color, copy, wrong, Tells, put, wrong_of}
use errmark.Main.Done.{take_option-put}

-- The results of getopt_long() that tell of a list of choices.
pub data AreTold : List Choice → List Got → Type 0 where
  no_more : AreTold [] []
  told :
      {c : Choice} {got : Got} {cs : List Choice} {gots : List Got}
      → Tells c got
      → AreTold cs gots
      → AreTold (c ∷ cs) (got ∷ gots)

-- All choices, in order: of two that set the same, the last one counts.
abbrev pub settings : List Choice → World → World
settings [] w = w
settings (c ∷ cs) w = settings cs (put c w)

abbrev pub wrongs : List Choice → ℕ
wrongs [] = 0
wrongs (c ∷ cs) = wrong_of c + wrongs cs

one_at_most : (c : Choice) → wrong_of c ≤ 1
one_at_most verbose = omega arith
one_at_most (mark fd m_start m_end) = omega arith
one_at_most (color ent) = omega arith
one_at_most (copy fname) = omega arith
one_at_most wrong = omega arith

put-io :
    (c : Choice) (io : Io) (w : World) → put c (record w { io = io }) ≡ record (put c w) { io = io }
put-io verbose io w = refl
put-io (mark fd1 m_start m_end) io w = refl
put-io (mark fd2 m_start m_end) io w = refl
put-io (color ent) io w = refl
put-io (copy fname) io w = refl
put-io wrong io w = refl

settings-io :
    (cs : List Choice) (io : Io) (w : World)
    → settings cs (record w { io = io }) ≡ record (settings cs w) { io = io }
settings-io [] io w = refl
settings-io (c ∷ cs) io w = ap (settings cs) (put-io c io w) ∙ settings-io cs io (put c w)

settings-OnlyIo :
    (cs : List Choice) {u v w : World}
    → OnlyIo w u
    → OnlyIo (settings cs u) v
    → OnlyIo (settings cs w) v
settings-OnlyIo cs {u} {v} {w} h k = record {
  same =
      k.same
      ∙ ap (λ (x : World). record x { io = v.io })
          (ap (settings cs) h.same ∙ settings-io cs u.io w);
}

-- What the loop reads, and the requests made, which no option changes.
pub record Steady (f : Stream) (q : List Request) (w : World) : Type 0 where
  pub no_debug : w.debug ≡ false
  pub errprint_is : w.errprint_fh ≡ some f
  pub requests_are : w.requests ≡ q

pub OnlyIo-Steady :
    {f : Stream} {q : List Request} {w u : World} → OnlyIo w u → Steady f q w → Steady f q u
OnlyIo-Steady k h = record {
  no_debug = ap (λ (x : World). x.debug) k.same ∙ h.no_debug;
  errprint_is = ap (λ (x : World). x.errprint_fh) k.same ∙ h.errprint_is;
  requests_are = ap (λ (x : World). x.requests) k.same ∙ h.requests_are;
}

pub put-Steady :
    {f : Stream} {q : List Request} {w : World} (c : Choice) → Steady f q w → Steady f q (put c w)
put-Steady verbose h = record {
  no_debug = h.no_debug;
  errprint_is = h.errprint_is;
  requests_are = h.requests_are;
}
put-Steady (mark fd1 m_start m_end) h = record {
  no_debug = h.no_debug;
  errprint_is = h.errprint_is;
  requests_are = h.requests_are;
}
put-Steady (mark fd2 m_start m_end) h = record {
  no_debug = h.no_debug;
  errprint_is = h.errprint_is;
  requests_are = h.requests_are;
}
put-Steady (color ent) h = record {
  no_debug = h.no_debug;
  errprint_is = h.errprint_is;
  requests_are = h.requests_are;
}
put-Steady (copy fname) h = record {
  no_debug = h.no_debug;
  errprint_is = h.errprint_is;
  requests_are = h.requests_are;
}
put-Steady wrong h = h

pub settings-Steady :
    {f : Stream} {q : List Request} {w : World} (cs : List Choice)
    → Steady f q w
    → Steady f q (settings cs w)
settings-Steady [] h = h
settings-Steady (c ∷ cs) h = settings-Steady cs (put-Steady c h)

pub few : (n : ℕ) → n ≤ 10 → ltb 10 n ≡ false
few n h = ground arith

many : (n : ℕ) → 10 < n → ltb 10 n ≡ true
many n h = ground arith

module _ (f : Stream) (program_name : Bytes) where
  -- with ten wrong options at most, the loop goes through all of them
  pub counted :
      (cs : List Choice) (gots : List Got) (n : ℕ) (q : List Request) (w : World)
      → AreTold cs gots
      → Steady f q w
      → n + wrongs cs ≤ 10
      → Returns
          (options program_name n gots w)
          (λ m u. (m ≡ n + wrongs cs) × OnlyIo (settings cs w) u)
  unfolding options
  counted _ _ n q w no_more s h = rw (few n (omega arith)) (omega arith, OnlyIo-refl w)
  counted _ _ n q w (told {c} {got} {cs} {gots} t ts) s h =
      rw (few n (omega arith), options)
        (Returns-bind (λ m u. (m ≡ n + wrong_of c) × OnlyIo (put c w) u) _
          (take_option program_name n got w) _
          (take_option-put f program_name n c got w t s.no_debug s.errprint_is)
          λ m u (e, k).
            Returns-map (λ i v. (i ≡ m + wrongs cs) × OnlyIo (settings cs u) v)
              (λ i v. (i ≡ n + (wrong_of c + wrongs cs)) × OnlyIo (settings cs (put c w)) v)
              (options program_name m gots u)
              (counted cs gots m q u ts (OnlyIo-Steady k (put-Steady c s)) (omega arith))
              λ i v (e', k'). (omega arith, settings-OnlyIo cs k k'))

  too_many :
      {q : List Request} (n : ℕ) (w : World)
      → Steady f q w
      → n ≡ 11
      → Returns
          ((do eprint (program_name ++ codes ": Too many option errors.\n"); pure n) w)
          (λ m u. (m ≡ 11) × Steady f q u)
  too_many n w s e =
      Returns-bind (λ _. OnlyIo w) _ _ _ (eprint-OnlyIo _ w s.errprint_is)
        λ _ u k. (e, OnlyIo-Steady k s)

  -- with more of them, it stops behind the eleventh
  pub stopped :
      (cs : List Choice) (gots : List Got) (n : ℕ) (q : List Request) (w : World)
      → AreTold cs gots
      → Steady f q w
      → n ≤ 11
      → 10 < n + wrongs cs
      → Returns (options program_name n gots w) (λ m u. (m ≡ 11) × Steady f q u)
  unfolding options
  stopped _ _ n q w no_more s h k = rw (many n (omega arith)) (too_many n w s (omega arith))
  stopped _ _ n q w (told {c} {got} {cs} {gots} t ts) s h k = elim (Bool-cases (ltb 10 n)) [
    | inl over ↦ rw (over, options) (too_many n w s (ground arith))
    | inr under ↦
        rw (under, options)
          (Returns-bind (λ m u. (m ≡ n + wrong_of c) × OnlyIo (put c w) u) _
            (take_option program_name n got w) _
            (take_option-put f program_name n c got w t s.no_debug s.errprint_is)
            λ m u (e, o).
              stopped cs gots m q u ts (OnlyIo-Steady o (put-Steady c s))
                (ground (arith, one_at_most c)) (omega arith))
  ]
