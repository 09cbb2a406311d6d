-- ===== src/Scheduler.antt =====
-- kernel/src/core/exec/scheduler.c: the task table with its queues, and the round-robin scheduler.
-- A pointer to a task is its index in the table, and `none` is NULL. Processor contexts, names and
-- arguments of tasks are left out: only the assembly of the context switch and the loader read them.
pub mod Apart
pub mod Chain
pub mod Ready
pub mod Removal
pub mod Switch
pub mod Calls
pub mod Fair
pub mod Ticks
pub mod Rounds
pub mod Lost
pub mod Create
pub mod Creation
pub mod Boot
pub mod States
pub mod Kept
pub mod Sound
pub mod Timer
pub mod Reach
pub mod Blocked
mod Tests
use kronosos.Base.{
  ℕ, zero, suc, ◌+◌, ◌-◌, ◌*◌, ◌/◌, ◌%◌, ◌^◌, Bool, true, false, not, ◌&&◌, ◌||◌, Option, none,
  some, ltb, leb, ◌==◌, if◌then◌else◌, add64, sub64,
}
use kronosos.Vmm.{Vmm}
use kronosos.Vmm.Spaces.{switch_address_space}

pub data TaskState : Type 0 where
  new : TaskState
  ready : TaskState
  running : TaskState
  blocked : TaskState
  terminated : TaskState

abbrev pub is_running : TaskState → Bool
is_running running = true
is_running new = false
is_running ready = false
is_running blocked = false
is_running terminated = false

abbrev pub is_ready : TaskState → Bool
is_ready ready = true
is_ready new = false
is_ready running = false
is_ready blocked = false
is_ready terminated = false

abbrev pub is_blocked : TaskState → Bool
is_blocked blocked = true
is_blocked new = false
is_blocked ready = false
is_blocked running = false
is_blocked terminated = false

abbrev pub is_terminated : TaskState → Bool
is_terminated terminated = true
is_terminated new = false
is_terminated ready = false
is_terminated running = false
is_terminated blocked = false

abbrev pub is_new : TaskState → Bool
is_new new = true
is_new ready = false
is_new running = false
is_new blocked = false
is_new terminated = false

pub record Task : Type 0 where
  pub tid : ℕ
  pub state : TaskState
  pub base_priority : ℕ
  pub dynamic_priority : ℕ
  pub quantum : ℕ
  pub cpu_time : ℕ
  pub last_schedule : ℕ
  pub start_time : ℕ
  pub exit_code : ℕ
  pub page_table : ℕ
  pub stack_top : ℕ
  pub stack_size : ℕ
  pub next : Option ℕ
  pub prev : Option ℕ

-- The static variables, and the virtual memory manager.
pub record Scheduler : Type 0 where
  pub task_table : ℕ → Task
  pub next_tid : ℕ
  pub current_task : Option ℕ
  pub idle_task : Option ℕ
  pub ready_queue_head : Option ℕ
  pub ready_queue_tail : Option ℕ
  pub blocked_queue_head : Option ℕ
  pub locked : Bool
  pub total_tasks_created : ℕ
  pub ticks_since_boot : ℕ
  pub current_task_count : ℕ
  pub vmm : Vmm

abbrev pub task_max_count : ℕ
task_max_count = 256

-- equality of pointers
abbrev pub same_task : Option ℕ → Option ℕ → Bool
same_task none none = true
same_task none (some y) = false
same_task (some x) none = false
same_task (some x) (some y) = x == y

-- a change of the task at a pointer that is not NULL
abbrev pub modify : ℕ → (Task → Task) → Scheduler → Scheduler
modify x f s = record s { task_table = λ y. if y == x then f (s.task_table y) else s.task_table y }

-- the same at a pointer that the code dereferences; in a well-formed queue it is not NULL.
abbrev pub modify_at : Option ℕ → (Task → Task) → Scheduler → Scheduler
modify_at none f s = s
modify_at (some x) f s = modify x f s

abbrev pub set_next : Option ℕ → Task → Task
set_next p t = record t { next = p }

abbrev pub set_prev : Option ℕ → Task → Task
set_prev p t = record t { prev = p }

abbrev pub set_state : TaskState → Task → Task
set_state k t = record t { state = k }

-- the middle of `add_to_ready_queue`, by the head: the task becomes the only one, or follows the tail
pub link_behind : Option ℕ → ℕ → Scheduler → Scheduler
link_behind none x s =
    modify x (set_prev none) (record s { ready_queue_head = some x; ready_queue_tail = some x })
link_behind (some _) x s =
    record (modify x (set_prev s.ready_queue_tail)
      (modify_at s.ready_queue_tail (set_next (some x)) s)) { ready_queue_tail = some x }

pub add_to_ready_queue : Option ℕ → Scheduler → Scheduler
unfolding link_behind
add_to_ready_queue none s = s
add_to_ready_queue (some x) s =
    modify x (set_state ready) (link_behind s.ready_queue_head x (modify x (set_next none) s))

-- the new head of the queue becomes its first task, or the queue is empty
pub set_head : Option ℕ → Scheduler → Scheduler
set_head none s = record s { ready_queue_head = none; ready_queue_tail = none }
set_head (some h) s = modify h (set_prev none) (record s { ready_queue_head = some h })

-- the new tail of the queue becomes its last task, or the queue is empty
pub set_tail : Option ℕ → Scheduler → Scheduler
set_tail none s = record s { ready_queue_head = none; ready_queue_tail = none }
set_tail (some l) s = modify l (set_next none) (record s { ready_queue_tail = some l })

-- A task in the middle: its neighbours are linked with each other. It is not its own neighbour, so
-- that both pointers can be read first.
pub bridge : Option ℕ → Option ℕ → Scheduler → Scheduler
bridge p n s = modify_at n (set_prev p) (modify_at p (set_next n) s)

pub remove_from_ready_queue : Option ℕ → Scheduler → Scheduler
unfolding set_head set_tail bridge
remove_from_ready_queue none s = s
remove_from_ready_queue (some x) s =
    let t = s.task_table x in
    let unlinked =
      if same_task (some x) s.ready_queue_head
      then set_head t.next s
      else if same_task (some x) s.ready_queue_tail
      then set_tail t.prev s
      else bridge t.prev t.next s in
    modify x (set_prev none) (modify x (set_next none) unlinked)

-- the new identifier, and the state with the one after it: `uint32_t` wraps around, and 0 is left out
pub allocate_tid : Scheduler → ℕ × Scheduler
allocate_tid s =
    let next = (s.next_tid + 1) % 2 ^ 32 in
    (s.next_tid, record s { next_tid = if next == 0 then 1 else next })

pub add_to_blocked_queue : Option ℕ → Scheduler → Scheduler
add_to_blocked_queue none s = s
add_to_blocked_queue (some x) s =
    modify x (set_state blocked)
      (record (modify x (set_next s.blocked_queue_head) s) { blocked_queue_head = some x })

-- The task before, or the head, leads to the task after.
pub skip : Option ℕ → Option ℕ → Scheduler → Scheduler
skip none after s = record s { blocked_queue_head = after }
skip (some p) after s = modify p (set_next after) s

-- The loop of `remove_from_blocked_queue` from `current` on, with `n` bounding the rounds.
pub unlink_blocked : ℕ → ℕ → Option ℕ → Option ℕ → Scheduler → Scheduler
unfolding skip
unlink_blocked zero x prev current s = s
unlink_blocked (suc n) x prev none s = s
unlink_blocked (suc n) x prev (some c) s =
    let later = unlink_blocked n x (some c) (s.task_table c).next s in
    let after = (s.task_table c).next in
    if c == x then modify x (set_next none) (skip prev after s) else later

pub remove_from_blocked_queue : Option ℕ → Scheduler → Scheduler
unfolding unlink_blocked
remove_from_blocked_queue none s = s
remove_from_blocked_queue (some x) s =
    unlink_blocked (task_max_count + 1) x none s.blocked_queue_head s

-- `context_switch` up to the switch of the processor's context: the state in which the next task
-- goes on, or `none` when the function returns at once.
pub context_switch : Option ℕ → Scheduler → Option Scheduler
context_switch none s = none
context_switch (some x) s =
    if same_task (some x) s.current_task
    then none
    else let preempted =
        modify_at s.current_task (λ t. if is_running t.state then set_state ready t else t)
          (record s { current_task = some x }) in
      let started =
        modify x (λ t. record t { state = running; last_schedule = t.cpu_time }) preempted in
      some (record started {
        vmm = switch_address_space (started.task_table x).page_table started.vmm;
      })

-- the head of the ready queue is taken out of it
pub take_head : ℕ → Scheduler → Scheduler
unfolding set_head
take_head x s =
    modify x (set_prev none) (modify x (set_next none) (set_head (s.task_table x).next s))

-- `context_switch` with the return to the caller
pub or_stay : Scheduler → Option Scheduler → Scheduler
or_stay s none = s
or_stay s (some t) = t

-- `schedule_next` by the head of the ready queue
pub run_head : Option ℕ → Scheduler → Scheduler
unfolding take_head context_switch or_stay
run_head none s = or_stay s (context_switch s.idle_task s)
run_head (some x) s = let t = take_head x s in or_stay t (context_switch (some x) t)

-- the state when the processor goes on, with the next task or with this one
pub schedule_next : Scheduler → Scheduler
unfolding run_head
schedule_next s = run_head s.ready_queue_head s
