-- ===== src/Scheduler/Calls.antt =====
-- kernel/src/core/exec/scheduler.c: the functions that other parts of the kernel call. A call gives
-- `none` when it spins forever on the task lock, which is not released while one processor waits.
use kronosos.Base.{
  ℕ, zero, suc, ◌+◌, ◌-◌, ◌/◌, ◌%◌, ◌^◌, Bool, true, false, not, Option, none, some, leb, ◌==◌,
  if◌then◌else◌, add64, sub64,
}
use kronosos.Pmm
use kronosos.Vmm.Spaces.{delete_address_space}
use kronosos.Scheduler.{
  ready, terminated, is_running, is_ready, is_blocked, is_terminated, Task, Scheduler,
  task_max_count, same_task, modify, set_state, add_to_ready_queue, remove_from_ready_queue,
  remove_from_blocked_queue, context_switch, schedule_next,
}

-- `spinlock_acquire` and `spinlock_release` of the task lock
unfoldable pub acquire : Scheduler → Option Scheduler
acquire s = if s.locked then none else some (record s { locked = true })

unfoldable pub release : Scheduler → Scheduler
release s = record s { locked = false }

infixl 5 ◌>>=◌
abbrev pub ◌>>=◌ : {A B : Type 0} → Option A → (A → Option B) → Option B
none >>= f = none
some a >>= f = f a

-- `n` rounds of the search for an identifier, from task `i` on
pub find_tid : ℕ → ℕ → ℕ → Scheduler → Option ℕ
find_tid tid zero i s = none
find_tid tid (suc n) i s =
    let rest = find_tid tid n (i + 1) s in if (s.task_table i).tid == tid then some i else rest

unfoldable pub get_task_by_id : ℕ → Scheduler → Option (Option ℕ × Scheduler)
unfolding acquire release find_tid
get_task_by_id tid s = do t ← acquire s; some (find_tid tid task_max_count 0 t, release t)

-- the end of `scheduler_execute_task`, when the task is there
pub switch_if_ready : ℕ → Scheduler → Bool × Scheduler
unfolding release context_switch
switch_if_ready x s =
    if not (is_ready (s.task_table x).state)
    then (false, release s)
    else elim (context_switch (some x) s) [ none ↦ (true, release s) | some u ↦ (true, u) ]

unfoldable pub execute_task : ℕ → Scheduler → Option (Bool × Scheduler)
unfolding acquire release get_task_by_id switch_if_ready
execute_task tid s = do
  t ← acquire s
  (task, u) ← get_task_by_id tid t
  some (elim task [ none ↦ (false, release u) | some x ↦ switch_if_ready x u ])

-- A running task goes to the end of the ready queue.
pub requeue : Scheduler → Scheduler
unfolding add_to_ready_queue
requeue s = elim s.current_task [
  | none ↦ s
  | some x ↦
      if is_running (s.task_table x).state
      then add_to_ready_queue (some x) (modify x (set_state ready) s)
      else s
]

-- The lock is released when no other task has been switched to, and otherwise when the processor
-- comes back to this one.
pub yield : Scheduler → Option Scheduler
unfolding acquire release requeue schedule_next
yield s = do
  t ← acquire s
  let u = schedule_next (requeue t)
  some (if same_task u.current_task s.current_task then release u else u)

-- the end of the time quantum of the running task, once the lock is held
unfoldable pub put_back : ℕ → Scheduler → Scheduler
unfolding release add_to_ready_queue schedule_next
put_back x s =
    let u =
      if same_task (some x) s.idle_task
      then s
      else add_to_ready_queue (some x) (modify x (set_state ready) s) in
    schedule_next (release u)

unfoldable pub preempt : ℕ → Scheduler → Option Scheduler
unfolding acquire put_back
preempt x s = do t ← acquire s; some (put_back x t)

-- a tick with a running task
unfoldable pub tick_running : ℕ → Scheduler → Option Scheduler
unfolding preempt
tick_running x s =
    let t = modify x (λ (t : Task). record t { cpu_time = add64 t.cpu_time 1 }) s in
    let task = t.task_table x in
    if leb task.quantum (sub64 task.cpu_time task.last_schedule) then preempt x t else some t

-- a tick, by the current task
unfoldable pub tick_current : Option ℕ → Scheduler → Option Scheduler
unfolding schedule_next tick_running
tick_current none s = some (schedule_next s)
tick_current (some x) s =
    if is_running (s.task_table x).state then tick_running x s else some (schedule_next s)

unfoldable pub timer_callback : Scheduler → Option Scheduler
unfolding tick_current
timer_callback s =
    tick_current s.current_task (record s { ticks_since_boot = add64 s.ticks_since_boot 1 })

-- `free_task_resources` of a task that is not NULL
unfoldable pub free_task_resources : ℕ → Scheduler → Scheduler
free_task_resources x s =
    let task = s.task_table x in
    let t =
      if task.page_table == 0
      then s
      else modify x (λ (t : Task). record t { page_table = 0 })
          (record s { vmm = delete_address_space task.page_table s.vmm }) in
    if task.stack_top == 0
    then t
    else modify x (λ (t : Task). record t { stack_top = 0 })
        (record t {
          vmm = record t.vmm {
            pmm = Pmm.free_pages t.vmm.pmm task.stack_top (task.stack_size / 4096);
          };
        })

-- The end of `scheduler_terminate_task`, when the task is there. The program does not get here, as
-- `terminate_task` waits for the lock that it holds before it.
unfoldable pub terminate : ℕ → ℕ → Scheduler → Bool × Scheduler
unfolding release remove_from_ready_queue remove_from_blocked_queue free_task_resources
terminate x exit_code s =
    if is_terminated (s.task_table x).state
    then (false, release s)
    else let t =
        modify x (λ (t : Task). record t { state = terminated; exit_code = exit_code }) s in
      let state = (t.task_table x).state in
      let u =
        if is_ready state
        then remove_from_ready_queue (some x) t
        else if is_blocked state
        then remove_from_blocked_queue (some x) t
        else t in
      let w = free_task_resources x u in
      (
        true,
        release (record w { current_task_count = (w.current_task_count + 2 ^ 32 - 1) % 2 ^ 32 }),
      )

unfoldable pub terminate_task : ℕ → ℕ → Scheduler → Option (Bool × Scheduler)
unfolding acquire release get_task_by_id terminate
terminate_task tid exit_code s = do
  t ← acquire s
  (task, u) ← get_task_by_id tid t
  some (elim task [ none ↦ (false, release u) | some x ↦ terminate x exit_code u ])
