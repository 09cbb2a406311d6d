-- ===== src/Scheduler/Kept.antt =====
-- What `scheduler_create_task` leaves alone.
use kronosos.Base.{
  if_both, ℕ, ◌/◌, ◌≡◌, ◌≢◌, ◌∙◌, sym, ap, Bool, true, ◌||◌, some, ◌==◌, arith, if◌then◌else◌,
}
use kronosos.Pmm
use kronosos.Vmm.{Vmm}
use kronosos.Vmm.Spaces.{delete_address_space}
use kronosos.Scheduler.{
  TaskState, is_new, is_terminated, Task, Scheduler, modify, add_to_ready_queue,
}
use kronosos.Scheduler.Calls.{free_task_resources}
use kronosos.Scheduler.Chain.{put-other}
use kronosos.Scheduler.Fair.{add_to_ready_queue-SameRest}
use kronosos.Scheduler.States.{is_alive, added_others}

-- a slot that a new task may take
abbrev pub is_free : TaskState → Bool
is_free k = is_terminated k || is_new k

-- The current and the idle task are the same, and the tasks that are ready or run keep their states.
pub record Kept (s t : Scheduler) : Type 0 where
  pub current : t.current_task ≡ s.current_task
  pub idle : t.idle_task ≡ s.idle_task
  pub state :
      (y : ℕ)
      → is_alive (s.task_table y).state ≡ true
      → (t.task_table y).state ≡ (s.task_table y).state
  pub next : t.next_tid ≢ 0

-- the steps of `free_task_resources`
abbrev pub unmapped : ℕ → Scheduler → Scheduler
unmapped x s =
    modify x (λ (t : Task). record t { page_table = 0 })
      (record s { vmm = delete_address_space (s.task_table x).page_table s.vmm })

abbrev pub detached : ℕ → Scheduler → Scheduler
detached x s = if (s.task_table x).page_table == 0 then s else unmapped x s

abbrev pub unstacked : ℕ → Scheduler → Scheduler
unstacked x s =
    let t = detached x s in
    modify x (λ (t : Task). record t { stack_top = 0 })
      (record t {
        vmm = record t.vmm {
          pmm =
              Pmm.free_pages t.vmm.pmm (s.task_table x).stack_top
                ((s.task_table x).stack_size / 4096);
        };
      })

-- What goes through both steps holds behind `free_task_resources`.
pub free_task_resources-ind {ℓ} :
    (P : Scheduler → Type ℓ) (x : ℕ)
    → ((s : Scheduler) (vmm : Vmm)
        → P s
        → P (modify x (λ (t : Task). record t { page_table = 0 }) (record s { vmm = vmm })))
    → ((s : Scheduler) (vmm : Vmm)
        → P s
        → P (modify x (λ (t : Task). record t { stack_top = 0 }) (record s { vmm = vmm })))
    → (s : Scheduler) → P s
    → P (free_task_resources x s)
unfolding free_task_resources
free_task_resources-ind P x table stack s p =
    if_both P ((s.task_table x).stack_top == 0) (detached x s) (unstacked x s) first
      (stack (detached x s) _ first)
  where
    first : P (detached x s)
    first = if_both P ((s.task_table x).page_table == 0) s (unmapped x s) p (table s _ p)

-- The slot `x` was free.
module _ (s : Scheduler) (x : ℕ) (free : is_free (s.task_table x).state ≡ true) where
  apart : (y : ℕ) → is_alive (s.task_table y).state ≡ true → x ≢ y
  apart y a e =
      let same = ap (λ (z : ℕ). (s.task_table z).state) e in
      clash (s.task_table x).state (s.task_table y).state same free a
    where
      clash : (k l : TaskState) → k ≡ l → is_free k ≡ true → is_alive l ≡ true → ⊥
      clash k l same f a = ground arith

  pub modify-Kept : (f : Task → Task) {t : Scheduler} → Kept s t → Kept s (modify x f t)
  modify-Kept f {t} k = record {
    current = k.current;
    idle = k.idle;
    state =
        λ y a. ap (λ (u : Task). u.state) (put-other x f t.task_table y (apart y a)) ∙ k.state y a;
    next = k.next;
  }

  pub added-Kept : {t : Scheduler} → Kept s t → Kept s (add_to_ready_queue (some x) t)
  added-Kept {t} k =
      let rest = add_to_ready_queue-SameRest x t in
      record {
        current = rest.current ∙ k.current;
        idle = rest.idle ∙ k.idle;
        state = λ y a. added_others x t y (apart y a) ∙ k.state y a;
        next = λ e. k.next (sym rest.next_tid ∙ e);
      }

-- The other fields do not matter.
pub Kept-same :
    {s t u : Scheduler}
    → u.task_table ≡ t.task_table
    → u.current_task ≡ t.current_task
    → u.idle_task ≡ t.idle_task
    → u.next_tid ≡ t.next_tid
    → Kept s t
    → Kept s u
Kept-same table current idle next k = record {
  current = current ∙ k.current;
  idle = idle ∙ k.idle;
  state = λ y a. ap (λ (f : ℕ → Task). (f y).state) table ∙ k.state y a;
  next = λ e. k.next (sym next ∙ e);
}
