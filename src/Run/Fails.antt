-- ===== src/Run/Fails.antt =====
-- A run in which a request fails.
use errmark.Prelude.{
  ℤ, pos, Option, none, some, false, List, [], ◌∷◌, ◌++◌, append-nil, append_assoc, Bytes,
  if◌then◌else◌, ◌≡◌, refl, sym, ap, subst, ◌∙◌,
}
use errmark.Stdio.{Chunk}
use errmark.Stdio.Shown.{texts, texts-append, shown}
use errmark.World.{World, Marks, Libc, Request, Outcome, M, ret, exit, abort, undefined, wait, bind}
use errmark.World.Returns.{Returns-on}
use errmark.Marks.Transcript.{
  Fd, fd1, fd2, end_of, end_mark, last_fd, transcript, woven, woven-transcript,
}
use errmark.Guard.{esrch, guard_ptrace}
use errmark.Guard.Chunks.{end_chunks}
use errmark.Guard.Ending.{Guarded, no_process, fatal, failure, guard_ptrace-Guarded}
use errmark.Writes.{Stop, Locals}
use errmark.Run.{ends, end_round, examine, round, rounds, ptrace_cmd, run_parent, start_cmd}
use errmark.Run.PassOn.{Allocates}
use errmark.Run.Script.{Event, stops_of, AreEvents, data_of, pieces}
use errmark.Run.Shows.{View, CurIs, Shows}
use errmark.Run.Closing.{not_when}
use errmark.Run.Viewed.{run_view, run_view-Viewed}
use errmark.Run.Terminal.{Passes-all}
use errmark.Run.Leaves.{weave, IsQuiet, setup_of, start_view, start-Shows, last_end}

-- The program ends by abort(), in a state that satisfies a predicate.
abbrev pub Aborts {ℓ} : {A : Type ℓ} → Outcome A → (World → Type 0) → Type 0
Aborts (ret a w) P = ⊥
Aborts (exit code w) P = ⊥
Aborts (abort w) P = P w
Aborts (undefined w) P = ⊥
Aborts (wait w) P = ⊥

Aborts-first {ℓ κ} :
    {A : Type ℓ} {B : Type κ} (P : World → Type 0) (o : Outcome A) (f : A → M B)
    → Aborts o P
    → Aborts (bind o f) P
Aborts-first P (ret a w) f h = absurd h
Aborts-first P (exit code w) f h = absurd h
Aborts-first P (abort w) f h = h
Aborts-first P (undefined w) f h = absurd h
Aborts-first P (wait w) f h = absurd h

Aborts-map {ℓ} :
    {A : Type ℓ} {P Q : World → Type 0} (o : Outcome A)
    → Aborts o P
    → ((w : World) → P w → Q w)
    → Aborts o Q
Aborts-map (ret a w) h k = absurd h
Aborts-map (exit code w) h k = absurd h
Aborts-map (abort w) h k = k w h
Aborts-map (undefined w) h k = absurd h
Aborts-map (wait w) h k = absurd h

-- The GETREGS at the stop fails.
abbrev pub failing : ℤ → Stop → Stop
failing errno stop = record stop { getregs_errno = some errno }

fatal-Aborts :
    {errno : ℤ} {w : World} {o : Outcome ℤ}
    → Guarded Request.getregs w (some errno) o
    → (errno ≡ esrch → ⊥)
    → Aborts o (λ w'. w'.io.sent ≡ (w.io.sent ++ end_chunks w) ++ failure errno w.libc ∷ [])
fatal-Aborts (no_process s sent) alive = absurd (alive refl)
fatal-Aborts (fatal dead s sent) alive = sent

round-Aborts :
    (errno : ℤ) (stop : Stop) (l : Locals) (w : World) (P : World → Type 0)
    → ends stop.status ≡ false
    → Aborts (guard_ptrace Request.getregs (some errno) w) P
    → Aborts (round (failing errno stop) l w) P
unfolding round examine
round-Aborts errno stop l w P e h =
    subst (λ b. Aborts ((if b then end_round stop.status else examine (failing errno stop) l) w) P)
      (sym e) (Aborts-first P (guard_ptrace Request.getregs (some errno) w) _ h)

-- The end mark of the open run goes out behind what stdout's buffer holds.
closing_texts :
    (fd : Fd) (m : Marks) (e1 e2 : Bytes) (w : World)
    → CurIs (some fd) w
    → w.marks.end1 ≡ some e1
    → w.marks.end2 ≡ some e2
    → m.end1 ≡ some e1
    → m.end2 ≡ some e2
    → texts (end_chunks w) ≡ w.io.pending ++ end_of m fd
closing_texts fd1 m e1 e2 w (one, here) p q p' q' = rw (one, here, p, p', append-nil) refl
closing_texts fd2 m e1 e2 w (one, here) p q p' q' = rw (one, here, q, q', append-nil) refl

-- What has been sent when the program is aborted in a run.
shown_failure :
    (w : World) (fd : Fd) (e1 e2 : Bytes) (v : View) (u w' : World) (errno : ℤ)
    → w.marks.end1 ≡ some e1
    → w.marks.end2 ≡ some e2
    → v.cur ≡ some fd
    → Shows (setup_of w) v u
    → w'.io.sent ≡ (u.io.sent ++ end_chunks u) ++ failure errno u.libc ∷ []
    → texts w'.io.sent ≡ (v.text ++ end_of w.marks fd) ++ (failure errno w.libc).text
unfolding shown
shown_failure w fd e1 e2 v u w' errno p q cur h sent =
    ap texts sent
    ∙ texts-append (u.io.sent ++ end_chunks u) (failure errno u.libc ∷ [])
    ∙ ap (λ (t : Bytes). t ++ ((failure errno u.libc).text ++ []))
        (texts-append u.io.sent (end_chunks u))
    ∙ ap (λ (t : Bytes). (texts u.io.sent ++ t) ++ ((failure errno u.libc).text ++ []))
        (closing_texts fd w.marks e1 e2 u (subst (λ c. CurIs c u) cur h.cur_is)
          (h.base.marks_are.1 ∙ p) (h.base.marks_are.3 ∙ q) p q)
    ∙ ap (λ (t : Bytes). t ++ ((failure errno u.libc).text ++ []))
        (sym (append_assoc (texts u.io.sent) u.io.pending (end_of w.marks fd))
          ∙ ap (λ (t : Bytes). t ++ end_of w.marks fd) h.base.text_is)
    ∙ ap (λ (t : Bytes). (v.text ++ end_of w.marks fd) ++ t)
        (append-nil (failure errno u.libc).text)
    ∙ ap (λ (c : Libc). (v.text ++ end_of w.marks fd) ++ (failure errno c).text) h.base.libc_is

viewed-transcript :
    (w : World) (es : List Event)
    → (run_view (setup_of w) es (start_view w)).text ++ last_end w es
      ≡ shown w.io ++ transcript w.marks (pieces es)
viewed-transcript w es =
    ap (λ (t : Bytes). t ++ last_end w es)
      (run_view-Viewed data_of (setup_of w) es (start_view w)).text_is
    ∙ append_assoc (shown w.io) (woven w.marks none (pieces es)) (last_end w es)
    ∙ ap (λ (t : Bytes). shown w.io ++ t) (woven-transcript w.marks (pieces es))

-- The texts sent, when the program is aborted: the transcript, and the message.
abbrev pub TranscriptThen : World → List Event → Chunk → World → Type 0
TranscriptThen w es c w' =
    texts w'.io.sent ≡ (shown w.io ++ transcript w.marks (pieces es)) ++ c.text

same_number : (a b : ℤ) → some a ≡ some b → a ≡ b
same_number a b h = cc

-- The loop, in a run of `fd`.
rounds-Aborts :
    (w : World) (fd : Fd) (e1 e2 : Bytes) (es : List Event) (errno : ℤ) (last : Stop) (l : Locals)
    (u : World)
    → w.marks.end1 ≡ some e1
    → w.marks.end2 ≡ some e2
    → last_fd none (pieces es) ≡ some fd
    → ends last.status ≡ false
    → (errno ≡ pos 0 → ⊥)
    → (errno ≡ esrch → ⊥)
    → Shows (setup_of w) (run_view (setup_of w) es (start_view w)) u
    → Aborts (rounds (failing errno last ∷ []) l u) (TranscriptThen w es (failure errno w.libc))
unfolding rounds
rounds-Aborts w fd e1 e2 es errno last l u p q cur e nonzero alive h =
    let v = run_view (setup_of w) es (start_view w) in
    let viewed = run_view-Viewed data_of (setup_of w) es (start_view w) in
    Aborts-first (TranscriptThen w es (failure errno w.libc)) (round (failing errno last) l u) _ (
      round-Aborts errno last l u _ e (
        Aborts-map (guard_ptrace Request.getregs (some errno) u)
          (fatal-Aborts
            (guard_ptrace-Guarded Request.getregs u (some errno)
              λ z. nonzero (same_number errno (pos 0) z))
            alive)
          λ w' sent.
            shown_failure w fd e1 e2 v u w' errno p q (viewed.cur_is ∙ cur) h sent
            ∙ ap (λ (t : Bytes). t ++ (failure errno w.libc).text)
                (ap (λ (c : Option Fd). v.text ++ end_mark w.marks c) (sym cur)
                  ∙ viewed-transcript w es)))

-- Where behind such writes, of which one at least is to 1 or 2, a GETREGS fails with an errno other
-- than ESRCH (and than 0) at a stop that does not end the loop, the run ends by abort(); what has
-- been sent to 1 and 2 by then is what was shown before, the transcript of the writes with the end
-- mark of the last run, and then the message of the failure. Both end marks are strings, no
-- messages are asked for, and malloc gives blocks of the size asked for.
pub run_parent-Aborts :
    (w : World)
    → IsQuiet w
    → Allocates w.libc
    → (pid : ℤ) (es : List Event) → AreEvents es
    → (fd : Fd) (e1 e2 : Bytes) → last_fd none (pieces es) ≡ some fd
    → w.marks.end1 ≡ some e1
    → w.marks.end2 ≡ some e2
    → (errno : ℤ) (last : Stop) → ends last.status ≡ false
    → (errno ≡ pos 0 → ⊥)
    → (errno ≡ esrch → ⊥)
    → (junk : Locals)
    → Aborts (run_parent pid (stops_of es ++ failing errno last ∷ []) junk w) (λ w'.
      texts w'.io.sent
      ≡ (shown w.io ++ transcript w.marks (pieces es)) ++ (failure errno w.libc).text)
unfolding run_parent ptrace_cmd
run_parent-Aborts w q m pid es ev fd e1 e2 cur p1 p2 errno last e nonzero alive junk =
    let T = TranscriptThen w es (failure errno w.libc) in
    let stops = stops_of es ++ failing errno last ∷ [] in
    let l : Locals = record junk { toggle = 0 } in
    let looped : Aborts (rounds stops l (start_cmd pid w)) T =
      weave data_of es (failing errno last ∷ []) l (start_view w) (start_cmd pid w)
        (λ o. Aborts o T) (Passes-all w m es ev) refl (start-Shows pid w q)
        λ l' u _ h. rounds-Aborts w fd e1 e2 es errno last l' u p1 p2 cur e nonzero alive h in
    Returns-on (λ _. λ w'. w' ≡ start_cmd pid w) (λ o. Aborts o T) _ _
      (not_when (setup_of w) _ _ (λ w'. w' ≡ start_cmd pid w) (start_cmd pid w) q.no_verbose refl)
      λ _ w' same.
        Aborts-first T (rounds stops l w') _
          (subst (λ x. Aborts (rounds stops l x) T) (sym same) looped)
