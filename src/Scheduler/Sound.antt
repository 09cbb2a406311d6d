-- ===== src/Scheduler/Sound.antt =====
-- What holds between the calls of the scheduler, and that the timer keeps it.
use kronosos.Base.{
  ℕ, ◌≡◌, ◌≢◌, ◌∙◌, refl, sym, ap, true, false, Option, some, List, [], ◌∷◌, ◌==◌, ==→eq, if_yes,
  Bool-cases, inl, inr, arith,
}
use mathlib.Core.Path.{subst}
use kronosos.Scheduler.{
  ready, Task, Scheduler, take_head, context_switch, or_stay, run_head, schedule_next,
}
use kronosos.Scheduler.Apart.{Out}
use kronosos.Scheduler.Chain.{put}
use kronosos.Scheduler.Ready.{IsQueue, head_some, head_none}
use kronosos.Scheduler.Removal.{take_head-IsQueue}
use kronosos.Scheduler.Switch.{
  take_head-SameRest, landed, landed-Switched, context_switch-eq, start, stop,
}
use kronosos.Scheduler.States.{is_alive, AllReady, AllReady-mono, take_head-keep, landed_state}
use kronosos.Scheduler.Lost.{no_switch}

-- The tasks `xs` are ready and queued; the current task and the idle task are ready or run; the idle
-- task is not queued, and the lock is free.
pub record IsWell (s : Scheduler) (xs : List ℕ) : Type 0 where
  pub queue : IsQueue s xs
  pub all : AllReady s.task_table xs
  pub current : ℕ
  pub current_at : s.current_task ≡ some current
  pub current_alive : is_alive (s.task_table current).state ≡ true
  pub idle : ℕ
  pub idle_at : s.idle_task ≡ some idle
  pub idle_alive : is_alive (s.task_table idle).state ≡ true
  pub idle_out : Out idle xs
  pub unlocked : s.locked ≡ false
  pub next : s.next_tid ≢ 0

-- Besides, the current task is not queued.
pub record IsSound (s : Scheduler) : Type 0 where
  pub xs : List ℕ
  pub well : IsWell s xs
  pub out : Out well.current xs

-- The state of a task that a switch to `x` leaves alive, or ready.
module _ (x c : ℕ) (s : Scheduler) where
  landed-alive :
      (y : ℕ)
      → is_alive (s.task_table y).state ≡ true
      → is_alive ((landed x c s).task_table y).state ≡ true
  landed-alive y a = elim (Bool-cases (y == x)) [
    | inl here ↦
        ap (λ (t : Task). is_alive t.state)
          (if_yes (start (put c stop s.task_table y)) (put c stop s.task_table y) here)
    | inr other ↦ elim (landed_state x c s y (λ e. apart y other e)) [
      | inl same ↦ ap is_alive same ∙ a
      | inr off ↦ ap is_alive off
    ]
  ]
    where
      apart : (y : ℕ) → (y == x) ≡ false → x ≢ y
      apart y other e = ground arith

  landed-ready :
      (y : ℕ) → x ≢ y → (s.task_table y).state ≡ ready → ((landed x c s).task_table y).state ≡ ready
  landed-ready y ne r = elim (landed_state x c s y ne) [ inl same ↦ same ∙ r | inr off ↦ off ]

-- A switch to a task that is not queued.
landed-IsSound :
    {s : Scheduler} {xs : List ℕ} (w : IsWell s xs) (x c : ℕ) → Out x xs → IsSound (landed x c s)
landed-IsSound {s} {xs} w x c out =
    let l = landed-Switched x c s w.queue in
    record {
      xs = xs;
      well = record {
        queue = l.queue;
        all =
            AllReady-mono s.task_table (landed x c s).task_table xs x (landed-ready x c s) out
              w.all;
        current = x;
        current_at = l.current;
        current_alive = ap is_alive l.is_on;
        idle = w.idle;
        idle_at = w.idle_at;
        idle_alive = landed-alive x c s w.idle w.idle_alive;
        idle_out = w.idle_out;
        unlocked = w.unlocked;
        next = w.next;
      };
      out = out;
    }

-- The first task leaves the queue.
take_head-IsWell :
    {s : Scheduler} (x : ℕ) (xs : List ℕ) → IsWell s (x ∷ xs) → IsWell (take_head x s) xs
take_head-IsWell {s} x xs w =
    let rest = take_head-SameRest x s in
    let state = take_head-keep (λ (t : Task). t.state) (λ p t. refl) (λ p t. refl) x s in
    record {
      queue = take_head-IsQueue x xs w.queue;
      all =
          AllReady-mono s.task_table (take_head x s).task_table xs x (λ y ne r. state y ∙ r)
            w.queue.distinct.0 w.all.1;
      current = w.current;
      current_at = rest.current ∙ w.current_at;
      current_alive = ap is_alive (state w.current) ∙ w.current_alive;
      idle = w.idle;
      idle_at = rest.idle ∙ w.idle_at;
      idle_alive = ap is_alive (state w.idle) ∙ w.idle_alive;
      idle_out = w.idle_out.1;
      unlocked = rest.unlocked ∙ w.unlocked;
      next = λ e. w.next (sym rest.next_tid ∙ e);
    }

switch_away :
    (c : ℕ) (s : Scheduler) (x : ℕ)
    → s.current_task ≡ some c
    → x ≢ c
    → or_stay s (context_switch (some x) s) ≡ landed x c s
unfolding or_stay
switch_away c s x e ne = ap (or_stay s) (context_switch-eq x c s e ne)

stay : (s : Scheduler) (x : ℕ) → s.current_task ≡ some x → or_stay s (context_switch (some x) s) ≡ s
unfolding or_stay
stay s x e = ap (or_stay s) (no_switch x s e)

-- a switch to `x`, whether it is the current task or not
switch-IsSound :
    {s : Scheduler} {xs : List ℕ} (w : IsWell s xs) (x : ℕ)
    → Out x xs
    → IsSound (or_stay s (context_switch (some x) s))
switch-IsSound {s} {xs} w x out = elim (Bool-cases (x == w.current)) [
  | inl same ↦
      let e = ==→eq same in
      subst IsSound (sym (stay s x (w.current_at ∙ ap some (sym e))))
        (record { xs = xs; well = w; out = subst (λ (y : ℕ). Out y xs) e out })
  | inr other ↦
      subst IsSound (sym (switch_away w.current s x w.current_at (apart other)))
        (landed-IsSound w x w.current out)
]
  where
    apart : (x == w.current) ≡ false → x ≢ w.current
    apart other e = ground arith

-- `schedule_next` needs no more than this.
pub schedule_next-IsSound : (s : Scheduler) (xs : List ℕ) → IsWell s xs → IsSound (schedule_next s)
unfolding schedule_next
schedule_next-IsSound s [] w =
    subst (λ (p : Option ℕ). IsSound (run_head p s)) (sym (head_none w.queue.chain))
      (subst (λ (p : Option ℕ). IsSound (or_stay s (context_switch p s))) (sym w.idle_at)
        (switch-IsSound w w.idle tt))
schedule_next-IsSound s (x ∷ xs) w =
    subst (λ (p : Option ℕ). IsSound (run_head p s)) (sym (head_some w.queue.chain))
      (switch-IsSound (take_head-IsWell x xs w) x w.queue.distinct.0)
