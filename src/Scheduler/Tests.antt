-- ===== src/Scheduler/Tests.antt =====
-- A sample with the idle task 0, the running task 1, and the ready tasks 2 and 3.
use kronosos.Base.{
  ℕ, ◌+◌, ◌*◌, ◌≡◌, refl, false, Option, none, some, [], ◌∷◌, ◌==◌, if◌then◌else◌, arith,
}
use kronosos.Vmm.Sample.{empty}
use kronosos.Scheduler.{
  TaskState, new, ready, running, Task, Scheduler, add_to_ready_queue, remove_from_ready_queue,
  schedule_next, context_switch, or_stay, add_to_blocked_queue, remove_from_blocked_queue,
}
use kronosos.Scheduler.Calls.{timer_callback, tick_current, execute_task, terminate_task}
use kronosos.Scheduler.Create.{create_task}
use kronosos.Scheduler.Chain.{nil, cons}
use kronosos.Scheduler.Ready.{IsQueue, add_to_ready_queue-IsQueue}
use kronosos.Scheduler.Removal.{remove_from_ready_queue-IsQueue}
use kronosos.Scheduler.Switch.{Switched, schedule_next-Switched}
use kronosos.Scheduler.Fair.{Turn}
use kronosos.Scheduler.Rounds.{ticks, ticks-Turn}
use kronosos.Scheduler.Lost.{execute_task-spins, IsLost, ticks-IsLost}
use kronosos.Scheduler.Boot.{static_state, init}
use kronosos.Scheduler.Sound.{IsSound}
use kronosos.Scheduler.Reach.{Reachable, start, tick, Reachable-IsSound, Reachable-returns}
use kronosos.Scheduler.Blocked.{
  IsBlocked, link, end, remove_from_blocked_queue-IsBlocked, add_to_blocked_queue-IsBlocked,
}

abbrev state_of : ℕ → TaskState
state_of y =
    if y == 1
    then running
    else if y == 2
    then ready
    else if y == 3
    then ready
    else if y == 0
    then ready
    else new

abbrev task : (ℕ → Option ℕ) → (ℕ → Option ℕ) → ℕ → Task
task next prev y = record {
  tid = y + 1;
  state = state_of y;
  base_priority = 1;
  dynamic_priority = 1;
  quantum = 20;
  cpu_time = 7;
  last_schedule = 7;
  start_time = 0;
  exit_code = 0;
  page_table = 0;
  stack_top = 0;
  stack_size = 0;
  next = next y;
  prev = prev y;
}

-- The first two arguments are the ends of the ready queue, the third the head of the blocked queue.
abbrev machine : (ℕ → Task) → Option ℕ → Option ℕ → Option ℕ → Scheduler
machine table head tail waiting = record {
  task_table = table;
  next_tid = 5;
  current_task = some 1;
  idle_task = some 0;
  ready_queue_head = head;
  ready_queue_tail = tail;
  blocked_queue_head = waiting;
  locked = false;
  total_tasks_created = 4;
  ticks_since_boot = 0;
  current_task_count = 4;
  vmm = empty;
}

abbrev sample : Scheduler
sample =
    machine (task (λ y. if y == 2 then some 3 else none) (λ y. if y == 3 then some 2 else none))
      (some 2) (some 3) none

sample-IsQueue : IsQueue sample (2 ∷ 3 ∷ [])
sample-IsQueue = record {
  chain = cons refl refl (cons refl refl (nil refl refl));
  distinct = ((omega arith, tt), (tt, tt));
}

-- the tasks 2 and 3 in the blocked queue
abbrev waiting : Scheduler
waiting = machine (task (λ y. if y == 2 then some 3 else none) (λ y. none)) none none (some 2)

waiting-IsBlocked : IsBlocked waiting (2 ∷ 3 ∷ [])
waiting-IsBlocked = record {
  line = link refl (link refl (end refl));
  distinct = ((omega arith, tt), (tt, tt));
}

add_to_ready_queue-IsQueue_example : IsQueue (add_to_ready_queue (some 1) sample) (2 ∷ 3 ∷ 1 ∷ [])
add_to_ready_queue-IsQueue_example =
    add_to_ready_queue-IsQueue 1 (2 ∷ 3 ∷ []) sample-IsQueue (omega arith, (omega arith, tt))

remove_from_ready_queue-IsQueue_example : IsQueue (remove_from_ready_queue (some 3) sample) (2 ∷ [])
remove_from_ready_queue-IsQueue_example =
    remove_from_ready_queue-IsQueue 3 (2 ∷ []) [] sample-IsQueue

schedule_next-Switched_example : Switched sample (schedule_next sample) 2 (3 ∷ [])
schedule_next-Switched_example =
    schedule_next-Switched 2 1 (3 ∷ []) sample-IsQueue refl (omega arith)

sample-Turn : Turn 20 sample 1 (2 ∷ 3 ∷ []) 0
sample-Turn = record {
  queue = sample-IsQueue;
  out = (omega arith, (omega arith, tt));
  current = refl;
  is_on = refl;
  idle = 0;
  idle_at = refl;
  idle_out = (omega arith, (omega arith, (omega arith, tt)));
  unlocked = refl;
  slices = (refl, (refl, (refl, tt)));
  times = λ y. omega arith;
  before = omega arith;
  used = refl;
}

ticks-Turn_example : (t : Scheduler) × (ticks (20 * 2) sample ≡ some t) × Turn 20 t 3 (1 ∷ 2 ∷ []) 0
ticks-Turn_example = ticks-Turn (omega arith) (2 ∷ []) [] sample-Turn (omega arith)

-- the running task alone, one tick before the end of its time quantum
abbrev single : Scheduler
single = machine (λ y. record (task (λ z. none) (λ z. none) y) { quantum = 1 }) none none none

abbrev single-Turn : Turn 1 single 1 [] 0
single-Turn = record {
  queue = record { chain = nil refl refl; distinct = tt };
  out = tt;
  current = refl;
  is_on = refl;
  idle = 0;
  idle_at = refl;
  idle_out = (omega arith, tt);
  unlocked = refl;
  slices = (refl, tt);
  times = λ y. omega arith;
  before = omega arith;
  used = refl;
}

ticks-IsLost_example : (t : Scheduler) × (ticks 2 single ≡ some t) × IsLost t 1 0
ticks-IsLost_example = ticks-IsLost single-Turn (omega arith) (omega arith)

execute_task-spins_example : (execute_task 3 sample ≡ none) × (terminate_task 3 0 sample ≡ none)
execute_task-spins_example = execute_task-spins 3 0 sample

remove_from_blocked_queue-IsBlocked_example :
    IsBlocked (remove_from_blocked_queue (some 3) waiting) (2 ∷ [])
remove_from_blocked_queue-IsBlocked_example =
    remove_from_blocked_queue-IsBlocked 3 (2 ∷ []) [] waiting-IsBlocked (omega arith)

add_to_blocked_queue-IsBlocked_example :
    IsBlocked (add_to_blocked_queue (some 1) waiting) (1 ∷ 2 ∷ 3 ∷ [])
    × IsBlocked
        (remove_from_blocked_queue (some 1) (add_to_blocked_queue (some 1) waiting))
        (2 ∷ 3 ∷ [])
add_to_blocked_queue-IsBlocked_example =
    add_to_blocked_queue-IsBlocked 1 (2 ∷ 3 ∷ []) waiting-IsBlocked (omega arith, (omega arith, tt))

-- the state after `scheduler_init` and a tick
abbrev awake : Scheduler
awake = record (init (static_state empty)) { ticks_since_boot = 1 }

awake-Reachable : Reachable empty awake
unfolding timer_callback tick_current schedule_next context_switch init or_stay
awake-Reachable = tick start refl

Reachable-IsSound_example : IsSound awake
Reachable-IsSound_example = Reachable-IsSound awake-Reachable

Reachable-returns_example :
    ((r : ℕ × Scheduler) × (create_task (λ v. (false, v)) 2 awake ≡ some r))
    × ((t : Scheduler) × (timer_callback awake ≡ some t))
Reachable-returns_example = Reachable-returns (λ v. (false, v)) 2 awake-Reachable
