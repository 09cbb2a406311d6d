-- ===== src/Scheduler/Create.antt =====
-- kernel/src/core/exec/scheduler.c: `scheduler_create_task`. `elf_load` is called with the bytes of
-- the file where it takes a parsed file, so what it answers, and does to memory, is an argument
-- here. `init_task_context` is left out: it fills the processor context, and puts the arguments of the
-- task on the new stack, which nothing here reads; that it returns is assumed.
use kronosos.Base.{
  ℕ, zero, suc, ◌+◌, ◌/◌, ◌%◌, ◌^◌, Bool, ◌||◌, Option, none, some, bit_or, ◌==◌, if◌then◌else◌,
  add64, sub64,
}
use kronosos.Pmm
use kronosos.Vmm.{Vmm, map_page}
use kronosos.Vmm.Ranges.{map_loop}
use kronosos.Vmm.Areas.{round_up}
use kronosos.Vmm.Spaces.{create_address_space, delete_address_space, switch_address_space}
use kronosos.Scheduler.{
  new, is_new, is_terminated, Task, Scheduler, task_max_count, modify, add_to_ready_queue,
  allocate_tid,
}
use kronosos.Scheduler.Calls.{acquire, release, free_task_resources, ◌>>=◌}

-- `create_task_stack`, once the physical pages are there; 0 is NULL.
pub map_stack : ℕ → ℕ → ℕ → Vmm → ℕ × Vmm
map_stack stack_size page_table stack_phys s =
    let page_count = stack_size / 4096 in
    let stack_virt = add64 (sub64 0xefff_f000 stack_size) 4096 in
    let old_cr3 = s.current_pml4_phys in
    let (o, t) =
      map_loop stack_virt stack_phys 4096 7 page_count 0 (switch_address_space page_table s) in
    elim o [
      | none ↦
          let u = switch_address_space old_cr3 t in
          (0, record u { pmm = Pmm.free_pages u.pmm stack_phys page_count })
      | some _ ↦
          let (_, u) = map_page (sub64 stack_virt 4096) 0 (bit_or 1 0x200) t in
          (add64 stack_virt stack_size, switch_address_space old_cr3 u)
    ]

pub create_task_stack : ℕ → ℕ → Vmm → ℕ × Vmm
unfolding map_stack
create_task_stack stack_size page_table s =
    let (stack_phys, pmm') = Pmm.alloc_pages s.pmm (round_up stack_size / 4096) in
    let t = record s { pmm = pmm' } in
    if stack_phys == 0 then (0, t) else map_stack (round_up stack_size) page_table stack_phys t

-- `n` rounds of the search for a free slot, from task `i` on
unfoldable pub find_slot : ℕ → ℕ → Scheduler → Option ℕ
find_slot zero i s = none
find_slot (suc n) i s =
    let rest = find_slot n (i + 1) s in
    let state = (s.task_table i).state in
    if is_terminated state || is_new state then some i else rest

abbrev pub default_time_quantum : ℕ
default_time_quantum = 20

abbrev pub user_stack_size : ℕ
user_stack_size = 65536

-- a task structure after `memset` and the assignments behind it
abbrev pub fresh_task : ℕ → ℕ → ℕ → Task
fresh_task tid priority time = record {
  tid = tid;
  state = new;
  base_priority = priority;
  dynamic_priority = priority;
  quantum = default_time_quantum;
  cpu_time = 0;
  last_schedule = 0;
  start_time = time;
  exit_code = 0;
  page_table = 0;
  stack_top = 0;
  stack_size = 0;
  next = none;
  prev = none;
}

-- the statistics at the end of `scheduler_create_task`
unfoldable pub count_task : Scheduler → Scheduler
count_task s = record s {
  total_tasks_created = add64 s.total_tasks_created 1;
  current_task_count = (s.current_task_count + 1) % 2 ^ 32;
}

module _ (elf_load : Vmm → Bool × Vmm) where
  -- the file is loaded and the task becomes ready
  unfoldable pub load_task : ℕ → ℕ → Scheduler → ℕ × Scheduler
  unfolding free_task_resources release add_to_ready_queue count_task
  load_task x tid s =
      let (ok, vmm') = elf_load s.vmm in
      let t = record s { vmm = vmm' } in
      if ok
      then (tid, release (count_task (add_to_ready_queue (some x) t)))
      else (0, release (free_task_resources x t))

  -- the task gets its stack, in its new address space
  unfoldable pub give_stack : ℕ → ℕ → ℕ → Scheduler → ℕ × Scheduler
  unfolding release create_task_stack load_task
  give_stack x tid page_table s =
      let (stack_top, vmm') = create_task_stack user_stack_size page_table s.vmm in
      let t =
        modify x (λ (t : Task). record t { stack_size = user_stack_size; stack_top = stack_top })
          (record s { vmm = vmm' }) in
      if stack_top == 0
      then (0, release (record t { vmm = delete_address_space page_table t.vmm }))
      else load_task x tid t

  -- the slot `x` becomes a task
  unfoldable pub fill_slot : ℕ → ℕ → Scheduler → ℕ × Scheduler
  unfolding release allocate_tid give_stack
  fill_slot priority x s =
      let (tid, t) = allocate_tid s in
      let (page_table, vmm') = create_address_space t.vmm in
      let u =
        modify x
          (λ (_ : Task). record (fresh_task tid priority t.ticks_since_boot) {
            page_table = page_table;
          })
          (record t { vmm = vmm' }) in
      if page_table == 0 then (0, release u) else give_stack x tid page_table u

  unfoldable pub create_task : ℕ → Scheduler → Option (ℕ × Scheduler)
  unfolding acquire release find_slot fill_slot
  create_task priority s = do
    t ← acquire s
    some (elim (find_slot task_max_count 0 t) [
      | none ↦ (0, release t)
      | some x ↦ fill_slot priority x t
    ])
