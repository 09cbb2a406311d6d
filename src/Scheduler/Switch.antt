-- ===== src/Scheduler/Switch.antt =====
-- `context_switch` and `schedule_next`: what they change besides the queue.
use kronosos.Base.{
  ℕ, ◌≡◌, ◌≢◌, ◌∙◌, refl, sym, ap, false, Option, none, some, List, ◌∷◌, ◌==◌, if◌then◌else◌,
  if_yes, if_no, Bool-cases, inl, inr, arith,
}
use mathlib.Core.Path.{subst}
use kronosos.Vmm.Spaces.{switch_address_space}
use kronosos.Scheduler.{
  TaskState, ready, running, is_running, Task, Scheduler, modify, set_next, set_prev, set_state,
  set_head, take_head, context_switch, or_stay, run_head, schedule_next,
}
use kronosos.Scheduler.Chain.{Chain-same, put, put_self}
use kronosos.Scheduler.Ready.{IsQueue, head_some}
use kronosos.Scheduler.Removal.{take_head-IsQueue}

-- A field that the changes of a task leave alone.
pub put_keep {ℓ} :
    {A : Type ℓ} (g : Task → A) (x : ℕ) (f : Task → Task) (table : ℕ → Task)
    → ((t : Task) → g (f t) ≡ g t)
    → (y : ℕ) → g (put x f table y) ≡ g (table y)
put_keep g x f table keep y = elim (Bool-cases (y == x)) [
  | inl here ↦ ap g (if_yes _ _ here) ∙ keep (table y)
  | inr other ↦ ap g (if_no _ _ other)
]

-- What the queue operations leave alone.
pub record SameRest (s t : Scheduler) : Type 0 where
  pub current : t.current_task ≡ s.current_task
  pub idle : t.idle_task ≡ s.idle_task
  pub unlocked : t.locked ≡ s.locked
  pub next_tid : t.next_tid ≡ s.next_tid
  pub quantum : (y : ℕ) → (t.task_table y).quantum ≡ (s.task_table y).quantum
  pub cpu : (y : ℕ) → (t.task_table y).cpu_time ≡ (s.task_table y).cpu_time

pub SameRest-trans : {s t u : Scheduler} → SameRest s t → SameRest t u → SameRest s u
SameRest-trans a b = record {
  current = b.current ∙ a.current;
  idle = b.idle ∙ a.idle;
  unlocked = b.unlocked ∙ a.unlocked;
  next_tid = b.next_tid ∙ a.next_tid;
  quantum = λ y. b.quantum y ∙ a.quantum y;
  cpu = λ y. b.cpu y ∙ a.cpu y;
}

pub modify-SameRest :
    (x : ℕ) (f : Task → Task) (s : Scheduler)
    → ((t : Task) → (f t).quantum ≡ t.quantum)
    → ((t : Task) → (f t).cpu_time ≡ t.cpu_time)
    → SameRest s (modify x f s)
modify-SameRest x f s q c = record {
  current = refl;
  idle = refl;
  unlocked = refl;
  next_tid = refl;
  quantum = put_keep (λ (t : Task). t.quantum) x f s.task_table q;
  cpu = put_keep (λ (t : Task). t.cpu_time) x f s.task_table c;
}

pub ends-SameRest :
    (s : Scheduler) (h l : Option ℕ)
    → SameRest s (record s { ready_queue_head = h; ready_queue_tail = l })
ends-SameRest s h l = record {
  current = refl;
  idle = refl;
  unlocked = refl;
  next_tid = refl;
  quantum = λ y. refl;
  cpu = λ y. refl;
}

set_head-SameRest : (p : Option ℕ) (s : Scheduler) → SameRest s (set_head p s)
unfolding set_head
set_head-SameRest none s = ends-SameRest s none none
set_head-SameRest (some h) s = SameRest-trans (ends-SameRest s (some h) s.ready_queue_tail) (
    modify-SameRest h (set_prev none) (record s { ready_queue_head = some h }) (λ t. refl)
      (λ t. refl))

pub take_head-SameRest : (x : ℕ) (s : Scheduler) → SameRest s (take_head x s)
unfolding take_head
take_head-SameRest x s =
    let t = set_head (s.task_table x).next s in
    SameRest-trans (set_head-SameRest (s.task_table x).next s) (
      SameRest-trans (modify-SameRest x (set_next none) t (λ t. refl) (λ t. refl))
        (modify-SameRest x (set_prev none) (modify x (set_next none) t) (λ t. refl) (λ t. refl)))

-- the state that `context_switch` from task `c` to task `x` ends in
abbrev pub stop : Task → Task
stop t = if is_running t.state then set_state ready t else t

abbrev pub start : Task → Task
start t = record t { state = running; last_schedule = t.cpu_time }

abbrev pub started : ℕ → ℕ → Scheduler → Scheduler
started x c s = modify x start (modify c stop (record s { current_task = some x }))

pub context_switch-eq :
    (x c : ℕ) (s : Scheduler)
    → s.current_task ≡ some c
    → x ≢ c
    → context_switch (some x) s
      ≡ some (record (started x c s) {
        vmm = switch_address_space ((started x c s).task_table x).page_table s.vmm;
      })
unfolding context_switch
context_switch-eq x c s e ne = rw e (if_no _ _ apart)
  where
    apart : (x == c) ≡ false
    apart = ground arith

abbrev pub landed : ℕ → ℕ → Scheduler → Scheduler
landed x c s = record (started x c s) {
  vmm = switch_address_space ((started x c s).task_table x).page_table s.vmm;
}

-- After a switch the task `x` runs, with a fresh time quantum, and `xs` are ready.
pub record Switched (s t : Scheduler) (x : ℕ) (xs : List ℕ) : Type 0 where
  pub queue : IsQueue t xs
  pub current : t.current_task ≡ some x
  pub is_on : (t.task_table x).state ≡ running
  pub fresh : (t.task_table x).last_schedule ≡ (t.task_table x).cpu_time
  pub idle : t.idle_task ≡ s.idle_task
  pub unlocked : t.locked ≡ s.locked
  pub quantum : (y : ℕ) → (t.task_table y).quantum ≡ (s.task_table y).quantum
  pub cpu : (y : ℕ) → (t.task_table y).cpu_time ≡ (s.task_table y).cpu_time

stop-keep {ℓ} :
    {A : Type ℓ} (g : Task → A)
    → ((t : Task) (k : TaskState) → g (set_state k t) ≡ g t)
    → (t : Task) → g (stop t) ≡ g t
stop-keep g keep t = elim (Bool-cases (is_running t.state)) [
  | inl on ↦ ap g (if_yes _ _ on) ∙ keep t ready
  | inr off ↦ ap g (if_no _ _ off)
]

module _ (x c : ℕ) (s : Scheduler) where
  landed_keep {ℓ} :
      {A : Type ℓ} (g : Task → A)
      → ((t : Task) (k : TaskState) → g (set_state k t) ≡ g t)
      → ((t : Task) → g (start t) ≡ g t)
      → (y : ℕ) → g ((landed x c s).task_table y) ≡ g (s.task_table y)
  landed_keep g keep again y =
      put_keep g x start (put c stop s.task_table) again y
      ∙ put_keep g c stop s.task_table (stop-keep g keep) y

  started_task : (landed x c s).task_table x ≡ start (put c stop s.task_table x)
  started_task = put_self x start (put c stop s.task_table)

  pub landed-Switched : {xs : List ℕ} → IsQueue s xs → Switched s (landed x c s) x xs
  landed-Switched {xs} q = record {
    queue = record {
      chain =
          Chain-same xs (landed_keep (λ (t : Task). t.next) (λ t k. refl) (λ t. refl))
            (landed_keep (λ (t : Task). t.prev) (λ t k. refl) (λ t. refl)) q.chain;
      distinct = q.distinct;
    };
    current = refl;
    is_on = ap (λ (t : Task). t.state) started_task;
    fresh =
        ap (λ (t : Task). t.last_schedule) started_task
        ∙ sym (ap (λ (t : Task). t.cpu_time) started_task);
    idle = refl;
    unlocked = refl;
    quantum = landed_keep (λ (t : Task). t.quantum) (λ t k. refl) (λ t. refl);
    cpu = landed_keep (λ (t : Task). t.cpu_time) (λ t k. refl) (λ t. refl);
  }

schedule_next-eq :
    (x c : ℕ) (s : Scheduler)
    → s.ready_queue_head ≡ some x
    → s.current_task ≡ some c
    → x ≢ c
    → schedule_next s ≡ landed x c (take_head x s)
unfolding schedule_next or_stay
schedule_next-eq x c s h e ne =
    let same = take_head-SameRest x s in
    ap (λ (p : Option ℕ). run_head p s) h
    ∙ ap (or_stay (take_head x s)) (context_switch-eq x c (take_head x s) (same.current ∙ e) ne)

-- When there is a current task and the first task of the queue is another one, `schedule_next` takes
-- the first task out of the queue, which then runs with a fresh time quantum, and leaves the others in
-- their order.
pub schedule_next-Switched :
    {s : Scheduler} (x c : ℕ) (xs : List ℕ)
    → IsQueue s (x ∷ xs)
    → s.current_task ≡ some c
    → x ≢ c
    → Switched s (schedule_next s) x xs
schedule_next-Switched {s} x c xs q e ne =
    let same = take_head-SameRest x s in
    let w = landed-Switched x c (take_head x s) (take_head-IsQueue x xs q) in
    subst (λ (t : Scheduler). Switched s t x xs)
      (sym (schedule_next-eq x c s (head_some q.chain) e ne))
      (record {
        queue = w.queue;
        current = w.current;
        is_on = w.is_on;
        fresh = w.fresh;
        idle = w.idle ∙ same.idle;
        unlocked = w.unlocked ∙ same.unlocked;
        quantum = λ y. w.quantum y ∙ same.quantum y;
        cpu = λ y. w.cpu y ∙ same.cpu y;
      })
