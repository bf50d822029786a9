-- ===== src/Run/Launch.antt =====
-- A run from the stop of execve(2) to its last stop: what is shown, returned and asked for.
use errmark.Prelude.{append-nil, ℕ, ◌≡◌, sym, subst, ◌∙◌, true, List, [], ◌∷◌, ◌++◌, ℤ, Bytes}
use errmark.World.{World, Regs, Request}
use errmark.Writes.{Stop, Locals}
use errmark.Run.Script.{AreEvents, stops_of, Event, called}
use errmark.Run.{run_parent, ends}
use errmark.Run.Events.{asks}
use errmark.Run.PassOn.{Allocates}
use errmark.Run.Leaves.{IsQuiet, Leaves, last_end}
use errmark.Run.Terminal.{gone, run_parent-transcript, run_parent-gone}
use errmark.Run.Tracee.{run_parent-asks, run_parent-asks_last}
use errmark.World.Returns.{Returns, Returns-map, Returns-both}

-- The last stop of a run, with the status that is returned, what is shown behind the transcript, and
-- what is asked for: of a status that ends the loop, and of a GETREGS that meets no process, as
-- where the program has exited with 0.
pub data Closes (w : World) (es : List Event) : List Stop → ℕ → Bytes → List Request → Type 0 where
  told :
      (last : Stop)
      → ends last.status ≡ true
      → Closes w es (last ∷ []) last.status (last_end w es ++ last_end w es) []
  vanished : (last : Stop) → Closes w es (gone last ∷ []) 0 (last_end w es) (Request.getregs ∷ [])

-- What errmark does in a run whose first stop is that of execve(2).
pub run_parent-Closes :
    (w : World)
    → IsQuiet w
    → Allocates w.libc
    → w.cmd.nullify ≡ true
    → (pid : ℤ) (exec : Regs) (es : List Event) → AreEvents (called exec ∷ es)
    → {tail : List Stop} {status : ℕ} {more : Bytes} {asked : List Request}
    → Closes w es tail status more asked
    → (junk : Locals)
    → Returns (run_parent pid (stops_of (called exec ∷ es) ++ tail) junk w) (λ rc w'.
      ((rc ≡ status) × Leaves w es more w')
      × (w'.requests ≡ (w.requests ++ asks true (called exec ∷ es)) ++ asked))
run_parent-Closes w q m n pid exec es ev (told last e) junk =
    let all = called exec ∷ es in
    let o = run_parent pid (stops_of all ++ last ∷ []) junk w in
    Returns-both _ _ o (run_parent-transcript w q m pid all ev last e junk) (
      subst (λ b. Returns o (λ rc w'. w'.requests ≡ (w.requests ++ asks b all) ++ [])) n
        (Returns-map _ _ o (run_parent-asks w q m pid all ev last e junk)
          λ rc w' h. h ∙ sym (append-nil _)))
run_parent-Closes w q m n pid exec es ev (vanished last) junk =
    let all = called exec ∷ es in
    let o = run_parent pid (stops_of all ++ gone last ∷ []) junk w in
    Returns-both _ _ o (run_parent-gone w q m pid (called exec) es ev last junk) (
      subst
        (λ b. Returns o (λ rc w'. w'.requests ≡ (w.requests ++ asks b all) ++ Request.getregs ∷ []))
        n (run_parent-asks_last w q m pid (called exec) es ev last junk))
