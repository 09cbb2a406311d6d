-- ===== src/Scheduler/Boot.antt =====
-- kernel/src/core/exec/scheduler.c: the static variables, and `scheduler_init`. The timer is set up
-- elsewhere.
use kronosos.Base.{◌-◌, ◌^◌, ◌==◌, false, none, some, if◌then◌else◌}
use kronosos.Vmm.{Vmm}
use kronosos.Scheduler.{new, ready, Task, Scheduler}

-- a task structure of zeros
abbrev pub no_task : Task
no_task = record {
  tid = 0;
  state = new;
  base_priority = 0;
  dynamic_priority = 0;
  quantum = 0;
  cpu_time = 0;
  last_schedule = 0;
  start_time = 0;
  exit_code = 0;
  page_table = 0;
  stack_top = 0;
  stack_size = 0;
  next = none;
  prev = none;
}

-- the static variables at the start of the kernel
abbrev pub static_state : Vmm → Scheduler
static_state vmm = record {
  task_table = λ y. no_task;
  next_tid = 1;
  current_task = none;
  idle_task = none;
  ready_queue_head = none;
  ready_queue_tail = none;
  blocked_queue_head = none;
  locked = false;
  total_tasks_created = 0;
  ticks_since_boot = 0;
  current_task_count = 0;
  vmm = vmm;
}

unfoldable pub init : Scheduler → Scheduler
init s = record s {
  task_table =
      λ y. if y == 0 then record no_task { state = ready; quantum = 2 ^ 64 - 1 } else no_task;
  locked = false;
  idle_task = some 0;
  current_task = some 0;
}
