-- ===== src/Run/Sound/Reach.antt =====
-- The states at the head of the loop, whatever the kernel answers at the stops.
use errmark.Prelude.{ℤ, Bool, true, false, Option, none, some, Bytes, ◌≡◌, inl, refl, subst}
use errmark.Stdio.{Stream, fwrite}
use errmark.World.{World, ret, when, eprint, fprint}
use errmark.World.OnlyIo.{OnlyIo, OnlyIo-refl, OnlyIo-io}
use errmark.World.Keeps.{Keeps, anything}
use errmark.Writes.{Stop, Locals}
use errmark.Run.{next, round, start_cmd}
use errmark.Run.Streams.{unserved-OnlyIo}
use errmark.Run.Sound.{IsSound}
use errmark.Run.Sound.Stops.{IsFlag, Good, GoesOn, Tolerates, round-GoesOn}

-- The states with which the loop goes into a round, from `w0` with `toggle = 0`.
pub data Reach (w0 : World) (l0 : Locals) : World → Locals → Type 0 where
  start : Reach w0 l0 w0 (record l0 { toggle = 0 })
  go_on :
      {w w' : World} {l l' : Locals} (stop : Stop)
      → Reach w0 l0 w l
      → round stop l w ≡ ret (next l') w'
      → Reach w0 l0 w' l'

noted_if : (b : Bool) (text : Bytes) (w : World) → Keeps (when b (eprint text) w) (λ _. OnlyIo w)
unfolding eprint fprint
noted_if false text w = OnlyIo-refl w
noted_if true text w = printed w.errprint_fh
  where
    printed : (f : Option Stream) → Keeps (fprint f text w) (λ _. OnlyIo w)
    printed none = tt
    printed (some f) = OnlyIo-io (fwrite f text) w

any_end : (w0 : World) → Tolerates anything w0
any_end w0 = record {
  unserved = λ n w h e. unserved-OnlyIo n w;
  noted = λ text w h. noted_if w.cmd.verbose text w;
}

Reach-Good :
    {w0 : World} {l0 l : Locals} {w : World} → IsSound w0 w0 → Reach w0 l0 w l → Good w0 l w
Reach-Good h start = (inl refl, h)
Reach-Good {w0} h (go_on {w} {w'} {l} {l'} stop r e) =
    let kept =
      subst (λ o. Keeps o (GoesOn w0 stop)) e
        (round-GoesOn (any_end w0) stop (λ _. tt) l (Reach-Good h r)) in
    kept.1

-- Whatever the kernel answers at the stops so far, at the head of a round of the loop `toggle` is 0
-- or 1; the marks are not open, or they are and `cur_fd` is -1, 1 or 2; and since the start nothing
-- has changed but `cur_fd`, `mark_state`, `child_exited`, the streams and the requests made.
pub Reach-IsSound :
    (w : World) (pid : ℤ) {junk l : Locals} {w' : World}
    → Reach (start_cmd pid w) junk w' l
    → IsFlag l × IsSound (start_cmd pid w) w'
Reach-IsSound w pid r = Reach-Good (record { state_is = inl refl; same = refl }) r
