-- ===== src/Main/Read.antt =====
-- The whole program, for a user who reads the terminal with the marks of the options in mind.
use errmark.Prelude.{
  ℕ, ◌==◌, Bool, true, false, Option, none, List, [], ◌∷◌, ◌++◌, Bytes, length, ◌≡◌, refl, ap, ◌∙◌,
}
use errmark.Stdio.Shown.{shown}
use errmark.World.{World}
use errmark.Cscript.Ended.{Ended, status_of, InRange}
use errmark.Cscript.PrintFh.{set_eprint_fh}
use errmark.Marks.Transcript.{Fd, fd1, fd2, transcript}
use errmark.Marks.Reader.{tagged, all_pass, Reads, read-once, read-twice}
use errmark.Writes.{Stop}
use errmark.Run.Ends.{goes_on, exit_of}
use errmark.Run.PassOn.{Allocates}
use errmark.Run.Script.{Event, stops_of, AreEvents, pieces}
use errmark.Run.Terminal.{gone}
use errmark.Run.Leaves.{Leaves, last_end}
use errmark.Main.{Env, fill_cmd, main_program}
use errmark.Main.Exit.{Exits, Exits-map, ready}
use errmark.Main.Choices.{Choice, verbose, mark, color, copy, wrong, put}
use errmark.Main.Settings.{AreTold, settings}
use errmark.Main.Chosen.{all_set}
use errmark.Main.Ended.{main_program-Ended}
use errmark.Main.Gone.{main_program-gone}

-- The last stops of a run, with the exit code that they lead to: of a status that is told of, and
-- of a GETREGS that meets no process behind a first stop, as where the program has exited with 0.
pub data Over : List Event → List Stop → ℕ → Type 0 where
  told_of :
      {es : List Event} (how : Ended) (last : Stop)
      → InRange how
      → goes_on how ≡ false
      → last.status ≡ status_of how
      → Over es (last ∷ []) (exit_of how)
  not_found : {e : Event} {es : List Event} (last : Stop) → Over (e ∷ es) (gone last ∷ []) 0

-- What the reader makes of all that is shown behind what was shown before.
pub record IsRead (read : Option Fd → Bytes → List (Fd × ℕ)) (es : List Event) (w w' : World)
    : Type 0 where
  pub rest : Bytes
  pub shown_is : shown w'.io ≡ shown w.io ++ rest
  pub read_is : read none rest ≡ tagged (pieces es)

put-same_io : (c : Choice) (w : World) → (put c w).io ≡ w.io
put-same_io verbose w = refl
put-same_io (mark fd1 m_start m_end) w = refl
put-same_io (mark fd2 m_start m_end) w = refl
put-same_io (color ent) w = refl
put-same_io (copy fname) w = refl
put-same_io wrong w = refl

settings-same_io : (cs : List Choice) (w : World) → (settings cs w).io ≡ w.io
settings-same_io [] w = refl
settings-same_io (c ∷ cs) w = settings-same_io cs (put c w) ∙ put-same_io c w

-- What is asked of a run of errmark that is to be read.
pub record Asked (cs : List Choice) (env : Env) (argv : List Bytes) (w : World) : Type 0 where
  pub are_told : AreTold cs env.gots
  pub are_set : all_set cs ≡ true
  pub no_debug : w.debug ≡ false
  pub no_verbose : w.verbose ≡ false
  pub allocates : Allocates w.libc
  pub some_word : (length argv == 0) ≡ false
  pub opens : env.opens ≡ true

module _ (cs : List Choice) (env : Env) (argv : List Bytes) (w : World) where
  -- the world in which the program is run
  prepared : World
  prepared = ready env argv (settings cs (set_eprint_fh env.out env.err w))

  prepared-shown : shown prepared.io ≡ shown w.io
  unfolding prepared fill_cmd set_eprint_fh
  prepared-shown = ap shown (settings-same_io cs (set_eprint_fh env.out env.err w))

  Leaves-IsRead :
      {read : Option Fd → Bytes → List (Fd × ℕ)} (es : List Event) (more : Bytes) (w' : World)
      → Leaves prepared es more w'
      → read none (transcript prepared.marks (pieces es) ++ more) ≡ tagged (pieces es)
      → IsRead read es w w'
  Leaves-IsRead es more w' left r = record {
    rest = transcript prepared.marks (pieces es) ++ more;
    shown_is =
        left.shown_is
        ∙ ap (λ (x : Bytes). x ++ (transcript prepared.marks (pieces es) ++ more)) prepared-shown;
    read_is = r;
  }

  -- Whichever marks the options set, a reader that can read them has the writes of the program.
  pub main_program-Reads :
      {plain : Bytes → Bool} {read : Option Fd → Bytes → List (Fd × ℕ)} (es : List Event)
      (tail : List Stop) (code : ℕ)
      → Asked cs env argv w
      → Reads plain read (settings cs (set_eprint_fh env.out env.err w)).marks
      → AreEvents es
      → all_pass plain (pieces es) ≡ true
      → Over es tail code
      → env.stops ≡ stops_of es ++ tail
      → Exits (main_program env argv w) (λ c w'. (c ≡ code) × IsRead read es w w')
  unfolding prepared fill_cmd
  main_program-Reads es _ _ h r ev l (told_of how last range over status) stops =
      let more = last_end prepared es ++ last_end prepared es in
      Exits-map (λ c w'. (c ≡ exit_of how) × Leaves prepared es more w') _ (main_program env argv w)
        (main_program-Ended env argv cs es how last w h.are_told h.are_set h.no_debug h.no_verbose
          h.allocates h.some_word h.opens ev range over status stops)
        λ c w' (k, left). (k, Leaves-IsRead es more w' left (read-twice r (pieces es) l))
  main_program-Reads _ _ _ h r ev l (not_found {e} {es} last) stops =
      let more = last_end prepared (e ∷ es) in
      Exits-map (λ c w'. (c ≡ 0) × Leaves prepared (e ∷ es) more w') _ (main_program env argv w)
        (main_program-gone env argv cs e es last w h.are_told h.are_set h.no_debug h.no_verbose
          h.allocates h.some_word h.opens ev stops)
        λ c w' (k, left). (k, Leaves-IsRead (e ∷ es) more w' left (read-once r (pieces (e ∷ es)) l))
