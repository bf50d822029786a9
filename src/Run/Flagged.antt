-- ===== src/Run/Flagged.antt =====
-- The requests of the rounds of a script, and the flag that they leave.
use errmark.Prelude.{
  ℕ, true, Bool, List, [], ◌∷◌, ◌++◌, append_assoc, append-nil, ◌≡◌, refl, subst, ◌∙◌,
}
use errmark.World.{World, Request}
use errmark.World.Keeps.{Keeps}
use errmark.Writes.{Stop, Locals}
use errmark.Run.{rounds}
use errmark.Run.Script.{Event, wrote, called, stops_of, AreEvents}
use errmark.Run.Requests.{Asked}
use errmark.Run.Events.{asks, asks_of, rounds-Asked, enter-Asked, leave-Asked, call-Asked}

-- The flag of the child, behind the stops of some events.
abbrev pub exited_after : List Event → Bool → Bool
exited_after [] x = x
exited_after (e ∷ es) x = true

stays_exited : (es : List Event) → exited_after es true ≡ true
stays_exited [] = refl
stays_exited (e ∷ es) = refl

module _ (b : Bool) where
  -- What an event asks for, in one list.
  gathered :
      (q e : List Request) (g s x : Request)
      → ((((((q ++ g ∷ []) ++ e) ++ s ∷ []) ++ g ∷ []) ++ x ∷ []) ++ s ∷ [])
        ≡ q ++ (g ∷ (e ++ s ∷ g ∷ x ∷ s ∷ []))
  gathered q e g s x = simp append_assoc refl

  -- The rounds of a script, and then `rest`.
  pub script-Asked :
      (es : List Event) (rest : List Stop) (l : Locals) (q : List Request) (w : World)
      (Q : ℕ → World → Type 0) (x : Bool)
      → AreEvents es
      → l.toggle ≡ 0
      → w.cmd.child_exited ≡ x
      → Asked q b w
      → ((l' : Locals) (u : World)
          → Asked (q ++ asks b es) b u
          → u.cmd.child_exited ≡ exited_after es x
          → Keeps (rounds rest l' u) Q)
      → Keeps (rounds (stops_of es ++ rest) l w) Q
  script-Asked [] rest l q w Q x ev zeroed m a go = go l w (rw append-nil a) m
  script-Asked (wrote wr ∷ es) rest l q w Q x (ev, evs) zeroed m a go =
      rounds-Asked b _ _ _ _ Q l _ w (enter-Asked b wr l q w ev zeroed a) λ l1 u1 mid a1 _.
        rounds-Asked b _ _ _ _ Q l1 _ u1 (leave-Asked b wr l1 _ u1 ev mid a1) λ l2 u2 zero2 a2 m2.
          script-Asked es rest l2 (q ++ asks_of b (wrote wr)) u2 Q true evs zero2 m2
            (subst (λ r. Asked r b u2) (gathered q _ _ _ _) a2)
            λ l' u a' m'.
              go l' u
                (subst (λ r. Asked r b u) (append_assoc q (asks_of b (wrote wr)) (asks b es)) a')
                (m' ∙ stays_exited es)
  script-Asked (called regs ∷ es) rest l q w Q x (ev, evs) zeroed m a go =
      rounds-Asked b _ _ _ _ Q l _ w (call-Asked b regs l q w ev zeroed a) λ l1 u1 zero1 a1 m1.
        script-Asked es rest l1 (q ++ asks_of b (called regs)) u1 Q true evs zero1 m1
          (subst (λ r. Asked r b u1) (append_assoc q _ _) a1)
          λ l' u a' m'.
            go l' u
              (subst (λ r. Asked r b u) (append_assoc q (asks_of b (called regs)) (asks b es)) a')
              (m' ∙ stays_exited es)
