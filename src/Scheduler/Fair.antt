-- ===== src/Scheduler/Fair.antt =====
-- Preemption by the timer: the ready tasks run in turn.
use kronosos.Base.{ℕ, ◌+◌, ◌%◌, ◌^◌, ◌<◌, ◌≡◌, refl, false, Option, none, some, List, [], ◌∷◌}
use kronosos.Scheduler.{
  ready, running, Task, Scheduler, modify, modify_at, set_next, set_prev, set_state, link_behind,
  add_to_ready_queue,
}
use kronosos.Scheduler.Apart.{Out}
use kronosos.Scheduler.Chain.{Chain-same, next-put_keep, prev-put_keep}
use kronosos.Scheduler.Ready.{IsQueue}
use kronosos.Scheduler.Switch.{SameRest, SameRest-trans, ends-SameRest, modify-SameRest}

-- A change of a task that leaves its links alone.
pub modify-IsQueue :
    {s : Scheduler} {xs : List ℕ} (x : ℕ) (f : Task → Task)
    → ((t : Task) → (f t).next ≡ t.next)
    → ((t : Task) → (f t).prev ≡ t.prev)
    → IsQueue s xs
    → IsQueue (modify x f s) xs
modify-IsQueue {s} {xs} x f next prev q = record {
  chain =
      Chain-same xs (next-put_keep x f s.task_table next) (prev-put_keep x f s.task_table prev)
        q.chain;
  distinct = q.distinct;
}

modify_at-SameRest :
    (p : Option ℕ) (f : Task → Task) (s : Scheduler)
    → ((t : Task) → (f t).quantum ≡ t.quantum)
    → ((t : Task) → (f t).cpu_time ≡ t.cpu_time)
    → SameRest s (modify_at p f s)
modify_at-SameRest none f s q c = record {
  current = refl;
  idle = refl;
  unlocked = refl;
  next_tid = refl;
  quantum = λ y. refl;
  cpu = λ y. refl;
}
modify_at-SameRest (some x) f s q c = modify-SameRest x f s q c

link_behind-SameRest : (h : Option ℕ) (x : ℕ) (s : Scheduler) → SameRest s (link_behind h x s)
unfolding link_behind
link_behind-SameRest none x s = SameRest-trans (ends-SameRest s (some x) (some x)) (
    modify-SameRest x (set_prev none)
      (record s { ready_queue_head = some x; ready_queue_tail = some x }) (λ t. refl) (λ t. refl))
link_behind-SameRest (some h) x s =
    let led = modify_at s.ready_queue_tail (set_next (some x)) s in
    let back = modify x (set_prev s.ready_queue_tail) led in
    SameRest-trans
      (modify_at-SameRest s.ready_queue_tail (set_next (some x)) s (λ t. refl) (λ t. refl))
      (SameRest-trans (modify-SameRest x (set_prev s.ready_queue_tail) led (λ t. refl) (λ t. refl))
        (ends-SameRest back back.ready_queue_head (some x)))

pub add_to_ready_queue-SameRest :
    (x : ℕ) (s : Scheduler) → SameRest s (add_to_ready_queue (some x) s)
unfolding add_to_ready_queue
add_to_ready_queue-SameRest x s =
    let t = modify x (set_next none) s in
    let u = link_behind s.ready_queue_head x t in
    SameRest-trans (modify-SameRest x (set_next none) s (λ t. refl) (λ t. refl)) (
      SameRest-trans (link_behind-SameRest s.ready_queue_head x t)
        (modify-SameRest x (set_state ready) u (λ t. refl) (λ t. refl)))

-- the tasks have the time quantum `q`
abbrev pub Slices : (ℕ → Task) → ℕ → List ℕ → Type 0
Slices table q [] = Unit
Slices table q (y ∷ ys) = ((table y).quantum ≡ q) × Slices table q ys

-- The processor's turns: task `c` has run for `j` ticks of its time quantum, the tasks `xs` are
-- ready, each of them has the quantum `q`, and the idle task is none of them.
pub record Turn (q : ℕ) (s : Scheduler) (c : ℕ) (xs : List ℕ) (j : ℕ) : Type 0 where
  pub queue : IsQueue s xs
  pub out : Out c xs
  pub current : s.current_task ≡ some c
  pub is_on : (s.task_table c).state ≡ running
  pub idle : ℕ
  pub idle_at : s.idle_task ≡ some idle
  pub idle_out : Out idle (c ∷ xs)
  pub unlocked : s.locked ≡ false
  pub slices : Slices s.task_table q (c ∷ xs)
  pub times : (y : ℕ) → (s.task_table y).cpu_time < 2 ^ 64
  pub before : (s.task_table c).last_schedule < 2 ^ 64
  pub used : (s.task_table c).cpu_time ≡ ((s.task_table c).last_schedule + j) % 2 ^ 64
