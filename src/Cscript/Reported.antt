-- ===== src/Cscript/Reported.antt =====
-- `fshow_wait_status` of any status returns, and changes the streams only.
use errmark.Prelude.{
  ℕ, ◌<◌, Bool, true, false, Bytes, codes, ◌++◌, sym, subst, if◌then◌else◌, arith,
}
use errmark.Stdio.{Stream, fwrite}
use errmark.World.{World, Outcome, M, bind, modify, print_stderr, when}
use errmark.World.Returns.{Returns, Returns-map}
use errmark.World.OnlyIo.{OnlyIo, OnlyIo-io, OnlyIo-trans}
use errmark.Cscript.WaitStatus.{
  termsig, exit_code, wifexited, wifsignaled, wifstopped, wifcontinued, wcoredump, show_killed,
  show_stopped, show_status, fshow_wait_status, decode_signal_r,
}
use errmark.Cscript.Ended.{decode_signal_r-signal_text}

print_stderr-OnlyIo : (text : Bytes) (w : World) → OnlyIo w (print_stderr text w)
unfolding print_stderr
print_stderr-OnlyIo text w = OnlyIo-io (fwrite Stream.stderr text) w

-- The name of a signal is known or composed, and then `say` goes on.
named :
    (sig : ℕ) (w : World) (say : Bytes → World → Outcome (Unit {0}))
    → sig < 256
    → ((desc : Bytes) → Returns (say desc w) (λ _. OnlyIo w))
    → Returns (bind (decode_signal_r 32 sig w) say) (λ _. OnlyIo w)
named sig w say h k =
    subst (λ o. Returns (bind o say) (λ _. OnlyIo w)) (sym (decode_signal_r-signal_text sig w h))
      (k _)

show_killed-OnlyIo : (status : ℕ) (w : World) → Returns (show_killed status w) (λ _. OnlyIo w)
unfolding show_killed
show_killed-OnlyIo status w =
    named (termsig status) w _ (omega arith)
      λ desc. dumped (wcoredump status) _ _ _ (print_stderr-OnlyIo _ w)
  where
    dumped :
        (b : Bool) (dump end : Bytes) (v : World)
        → OnlyIo w v
        → Returns
            (bind (when b (modify (print_stderr dump)) v) (λ _. modify (print_stderr end)))
            (λ _. OnlyIo w)
    dumped true dump end v h =
        OnlyIo-trans h (OnlyIo-trans (print_stderr-OnlyIo dump v) (print_stderr-OnlyIo end _))
    dumped false dump end v h = OnlyIo-trans h (print_stderr-OnlyIo end v)

show_stopped-OnlyIo : (status : ℕ) (w : World) → Returns (show_stopped status w) (λ _. OnlyIo w)
unfolding show_stopped
show_stopped-OnlyIo status w =
    named (exit_code status) w _ (omega arith) λ desc. print_stderr-OnlyIo _ w

show_status-OnlyIo : (status : ℕ) (w : World) → Returns (show_status status w) (λ _. OnlyIo w)
unfolding show_status
show_status-OnlyIo status w = either (wifexited status) _ _ (print_stderr-OnlyIo _ w) (
    either (wifsignaled status) _ _ (show_killed-OnlyIo status w) (
      either (wifstopped status) _ _ (show_stopped-OnlyIo status w)
        (either (wifcontinued status) _ _ (print_stderr-OnlyIo _ w) (print_stderr-OnlyIo _ w))))
  where
    either :
        (b : Bool) (x y : M (Unit {0}))
        → Returns (x w) (λ _. OnlyIo w)
        → Returns (y w) (λ _. OnlyIo w)
        → Returns ((if b then x else y) w) (λ _. OnlyIo w)
    either true x y h k = h
    either false x y h k = k

pub fshow_wait_status-OnlyIo :
    (name : Bytes) (status : ℕ) (w : World)
    → Returns (fshow_wait_status name status w) (λ _. OnlyIo w)
unfolding fshow_wait_status
fshow_wait_status-OnlyIo name status w =
    let v = print_stderr (name ++ codes " ...\n") w in
    Returns-map (λ _. OnlyIo v) (λ _. OnlyIo w) (show_status status v) (show_status-OnlyIo status v)
      λ _ u h. OnlyIo-trans (print_stderr-OnlyIo _ w) h
