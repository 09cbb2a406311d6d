-- ===== src/Scheduler/Rounds.antt =====
-- Round robin: how long a ready task waits for the processor.
use kronosos.Base.{
  ℕ, zero, suc, ◌+◌, ◌-◌, ◌*◌, ◌^◌, ◌<◌, ◌≡◌, ◌∙◌, ap, Option, some, List, [], ◌∷◌, ◌++◌, length,
  arith,
}
use mathlib.Core.Path.{subst}
use mathlib.Core.List.{append_assoc}
use kronosos.Scheduler.{Scheduler}
use kronosos.Scheduler.Calls.{timer_callback, ◌>>=◌}
use kronosos.Scheduler.Fair.{Turn}
use kronosos.Scheduler.Ticks.{tick_again, tick-next}

-- `n` ticks of the timer; `none` when one of them never returns
unfoldable pub ticks : ℕ → Scheduler → Option Scheduler
ticks zero s = some s
ticks (suc n) s = timer_callback s >>= ticks n

one_tick :
    (n : ℕ) (s : Scheduler) {t : Scheduler}
    → timer_callback s ≡ some t
    → ticks (suc n) s ≡ ticks n t
unfolding ticks
one_tick n s e = ap (λ (o : Option Scheduler). o >>= ticks n) e

module _ {q : ℕ} (short : q < 2 ^ 64) where
  -- the rest of a turn
  end_turn :
      (d : ℕ) {s : Scheduler} {c x : ℕ} {xs : List ℕ} (j : ℕ)
      → Turn q s c (x ∷ xs) j
      → j + suc d ≡ q
      → (n : ℕ) → (t : Scheduler) × (ticks (suc d + n) s ≡ ticks n t) × Turn q t x (xs ++ c ∷ []) 0
  end_turn zero {s} j v e n =
      let (t, step, w) = tick-next v short (omega arith) in
      (t, ap (λ (k : ℕ). ticks k s) (omega arith) ∙ one_tick n s step, w)
  end_turn (suc d) {s} j v e n =
      let (t, step, w) = tick_again v short (omega arith) in
      let (u, rest, z) = end_turn d (suc j) w (omega arith) n in
      (u, ap (λ (k : ℕ). ticks k s) (omega arith) ∙ one_tick (suc d + n) s step ∙ rest, z)

  -- a whole turn
  turn :
      {s : Scheduler} {c x : ℕ} {xs : List ℕ}
      → Turn q s c (x ∷ xs) 0
      → 0 < q
      → (n : ℕ) → (t : Scheduler) × (ticks (q + n) s ≡ ticks n t) × Turn q t x (xs ++ c ∷ []) 0
  turn {s} v pos n =
      let (t, e, w) = end_turn (q - 1) 0 v (omega arith) n in
      (t, ap (λ (k : ℕ). ticks k s) (omega arith) ∙ e, w)

  -- A ready task with `ys` before it in the queue gets the processor, with a fresh time quantum,
  -- after exactly one quantum of ticks for the running task and for each of `ys`, all of which wait
  -- again behind the others; no tick of the timer hangs. Every task has the same quantum `q`.
  pub ticks-Turn :
      (ys : List ℕ) {s : Scheduler} {c x : ℕ} (zs : List ℕ)
      → Turn q s c (ys ++ x ∷ zs) 0
      → 0 < q
      → (t : Scheduler) × (ticks (q * suc (length ys)) s ≡ some t) × Turn q t x (zs ++ c ∷ ys) 0
  unfolding ticks
  ticks-Turn [] {s} zs v pos =
      let (t, e, w) = turn v pos 0 in (t, ap (λ (k : ℕ). ticks k s) (omega arith) ∙ e, w)
  ticks-Turn (y ∷ ys) {s} {c} {x} zs v pos =
      let (t, e, w) = turn v pos (q * suc (length ys)) in
      let moved = subst (λ (l : List ℕ). Turn q t y l 0) (append_assoc ys (x ∷ zs) (c ∷ [])) w in
      let (u, f, z) = ticks-Turn ys (zs ++ c ∷ []) moved pos in
      (
        u,
        ap (λ (k : ℕ). ticks k s) (grind arith) ∙ e ∙ f,
        subst (λ (l : List ℕ). Turn q u x l 0) (append_assoc zs (c ∷ []) (y ∷ ys)) z,
      )
