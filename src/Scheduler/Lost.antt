-- ===== src/Scheduler/Lost.antt =====
-- Two faults of the scheduler: a task without companions drops out of it when its time is used up,
-- and two calls wait for a lock that they hold.
use kronosos.Base.{
  ℕ, suc, ◌^◌, ◌<◌, ◌≡◌, ◌≢◌, ◌∙◌, refl, ap, true, Option, none, some, [], ◌==◌, if_yes, if_no,
  Bool-cases, inl, inr, arith, add64,
}
use kronosos.Scheduler.{
  ready, is_running, Task, Scheduler, modify, set_state, take_head, context_switch, or_stay,
  run_head, schedule_next,
}
use kronosos.Scheduler.Calls.{
  acquire, release, get_task_by_id, execute_task, terminate_task, timer_callback, tick_current,
  ◌>>=◌,
}
use kronosos.Scheduler.Chain.{put, put_self, put-other}
use kronosos.Scheduler.Ready.{IsQueue, head_some, head_none}
use kronosos.Scheduler.Removal.{take_head-IsQueue}
use kronosos.Scheduler.States.{take_head-keep, added_state}
use kronosos.Scheduler.Switch.{
  stop, start, landed, landed-Switched, context_switch-eq, take_head-SameRest,
}
use kronosos.Scheduler.Ticks.{
  ticked, ticked-SameTurn, ticked-SameLinks, is_preempted, queued, preempt-eq, queued-IsQueue,
  queued-Rest,
}
use kronosos.Scheduler.Fair.{Turn}
use kronosos.Scheduler.Rounds.{ticks}

-- `scheduler_execute_task` and `scheduler_terminate_task` never return: both take the task lock and
-- then call `scheduler_get_task_by_id`, which waits for it.
pub execute_task-spins :
    (tid exit_code : ℕ) (s : Scheduler)
    → (execute_task tid s ≡ none) × (terminate_task tid exit_code s ≡ none)
unfolding execute_task terminate_task get_task_by_id acquire
execute_task-spins tid exit_code s = elim (Bool-cases s.locked) [
  | inl held ↦ rw held (refl, refl)
  | inr free ↦ rw free (refl, refl)
]

-- A switch from the current task to itself is none.
pub no_switch : (c : ℕ) (s : Scheduler) → s.current_task ≡ some c → context_switch (some c) s ≡ none
unfolding context_switch
no_switch c s e = rw e (if_yes _ _ here)
  where
    here : (c == c) ≡ true
    here = ground arith

-- The task alone is taken out of the queue again and goes on, as one that is ready.
pub alone :
    (c : ℕ) (s : Scheduler)
    → s.ready_queue_head ≡ some c
    → s.current_task ≡ some c
    → schedule_next s ≡ take_head c s
unfolding schedule_next or_stay
alone c s h e =
    ap (λ (p : Option ℕ). run_head p s) h
    ∙ ap (or_stay (take_head c s))
        (no_switch c (take_head c s) ((take_head-SameRest c s).current ∙ e))

queued_state : (c : ℕ) (t : Scheduler) → ((queued c t).task_table c).state ≡ ready
queued_state c t = added_state c (modify c (set_state ready) (record t { locked = true }))

-- A task that is ready, in no queue, and current.
record IsAdrift (s : Scheduler) (c i : ℕ) : Type 0 where
  queue : IsQueue s []
  current : s.current_task ≡ some c
  idle : s.idle_task ≡ some i
  is_ready : (s.task_table c).state ≡ ready

module _ {q : ℕ} {s : Scheduler} {c j : ℕ} (v : Turn q s c [] j) (short : q < 2 ^ 64) where
  abbrev first : Scheduler
  first = take_head c (release (queued c (ticked c s)))

  first_tick : suc j ≡ q → timer_callback s ≡ some first
  unfolding release
  first_tick e =
      let same = ticked-SameTurn c s in
      let queue = ticked-SameLinks v short in
      let waits = queued-IsQueue v same queue in
      is_preempted v short e
      ∙ preempt-eq v same queue
      ∙ ap some (
          alone c (release (queued c (ticked c s))) (head_some waits.chain)
            ((queued-Rest v same queue).current ∙ v.current))

  first-IsAdrift : IsAdrift first c v.idle
  unfolding release
  first-IsAdrift =
      let same = ticked-SameTurn c s in
      let queue = ticked-SameLinks v short in
      let rest = take_head-SameRest c (release (queued c (ticked c s))) in
      record {
        queue = take_head-IsQueue c [] (queued-IsQueue v same queue);
        current = rest.current ∙ (queued-Rest v same queue).current ∙ v.current;
        idle = rest.idle ∙ (queued-Rest v same queue).idle ∙ v.idle_at;
        is_ready =
            take_head-keep (λ (t : Task). t.state) (λ p t. refl) (λ p t. refl) c
              (release (queued c (ticked c s))) c
            ∙ queued_state c (ticked c s);
      }

-- What has become of task `c`: the idle task `i` runs, and `c` is ready but in no queue.
pub record IsLost (s : Scheduler) (c i : ℕ) : Type 0 where
  pub queue : IsQueue s []
  pub current : s.current_task ≡ some i
  pub waits : (s.task_table c).state ≡ ready

module _ (c i : ℕ) (s : Scheduler) (a : IsAdrift s c i) (apart : i ≢ c) where
  abbrev later : Scheduler
  later = record s { ticks_since_boot = add64 s.ticks_since_boot 1 }

  second_tick : timer_callback s ≡ some (landed i c later)
  unfolding timer_callback tick_current schedule_next or_stay
  second_tick =
      ap (λ (p : Option ℕ). tick_current p later) a.current
      ∙ if_no _ _ (ap is_running a.is_ready)
      ∙ ap some (
          ap (λ (p : Option ℕ). run_head p later) (head_none a.queue.chain)
          ∙ ap (λ (p : Option ℕ). or_stay later (context_switch p later)) a.idle
          ∙ ap (or_stay later) (context_switch-eq i c later a.current apart))

  landed-IsLost : IsLost (landed i c later) c i
  landed-IsLost =
      let q : IsQueue later [] = record { chain = a.queue.chain; distinct = a.queue.distinct } in
      let w = landed-Switched i c later q in
      record {
        queue = w.queue;
        current = w.current;
        waits =
            ap (λ (t : Task). t.state) (put-other i start (put c stop s.task_table) c apart)
            ∙ ap (λ (t : Task). t.state) (put_self c stop s.task_table)
            ∙ ap (λ (t : Task). t.state) (if_no _ _ (ap is_running a.is_ready))
            ∙ a.is_ready;
      }

-- When the only task but the idle one has used up its time, it is lost at the next tick but one:
-- the idle task runs, and the task is ready but in no queue.
pub ticks-IsLost :
    {q : ℕ} {s : Scheduler} {c j : ℕ} (v : Turn q s c [] j)
    → q < 2 ^ 64
    → suc j ≡ q
    → (t : Scheduler) × (ticks 2 s ≡ some t) × IsLost t c v.idle
unfolding ticks
ticks-IsLost {s = s} {c} v short e =
    let a = first-IsAdrift v short in
    let t = landed v.idle c (later c v.idle (first v short) a v.idle_out.0) in
    (
      t,
      ap (λ (o : Option Scheduler). o >>= ticks 1) (first_tick v short e)
          ∙ ap (λ (o : Option Scheduler). o >>= ticks 0)
              (second_tick c v.idle (first v short) a v.idle_out.0),
      landed-IsLost c v.idle (first v short) a v.idle_out.0,
    )
