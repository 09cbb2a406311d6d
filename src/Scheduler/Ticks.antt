-- ===== src/Scheduler/Ticks.antt =====
-- Ticks of the timer: each ready task runs when the tasks before it have used their time.
use kronosos.Base.{
  ℕ, suc, ◌+◌, ◌%◌, ◌^◌, ◌<◌, ◌≡◌, ◌≢◌, ◌∙◌, refl, sym, ap, true, false, Option, some, List, [],
  ◌∷◌, ◌++◌, leb, ◌==◌, if_yes, if_no, Bool-cases, inl, inr, arith, add64, sub64,
}
use kronosos.Scheduler.{
  ready, is_running, Task, Scheduler, modify, set_state, same_task, add_to_ready_queue,
  schedule_next,
}
use kronosos.Scheduler.Calls.{
  acquire, release, put_back, preempt, tick_running, tick_current, timer_callback, ◌>>=◌,
}
use kronosos.Scheduler.Apart.{Out, Out-append}
use kronosos.Scheduler.Chain.{put_self}
use kronosos.Scheduler.Ready.{IsQueue, add_to_ready_queue-IsQueue}
use kronosos.Scheduler.Switch.{
  put_keep, SameRest, SameRest-trans, modify-SameRest, Switched, schedule_next-Switched,
}
use kronosos.Scheduler.Fair.{Turn, Slices, modify-IsQueue, add_to_ready_queue-SameRest}

-- the state with one more tick of the running task
abbrev pub one_more : Task → Task
one_more t = record t { cpu_time = add64 t.cpu_time 1 }

abbrev pub ticked : ℕ → Scheduler → Scheduler
ticked c s = modify c one_more (record s { ticks_since_boot = add64 s.ticks_since_boot 1 })

Slices-keep :
    (table table' : ℕ → Task) (q : ℕ) (ys : List ℕ)
    → ((y : ℕ) → (table' y).quantum ≡ (table y).quantum)
    → Slices table q ys
    → Slices table' q ys
Slices-keep table table' q [] keep v = tt
Slices-keep table table' q (y ∷ ys) keep (e, v) = (keep y ∙ e, Slices-keep table table' q ys keep v)

module _ {q : ℕ} {s : Scheduler} {c : ℕ} {xs : List ℕ} {j : ℕ} (v : Turn q s c xs j)
    (short : q < 2 ^ 64) where
  ticked_task : (ticked c s).task_table c ≡ one_more (s.task_table c)
  ticked_task = put_self c one_more s.task_table

  -- A tick is one of the running task.
  tick_on :
      timer_callback s ≡ tick_running c (record s { ticks_since_boot = add64 s.ticks_since_boot 1 })
  unfolding timer_callback tick_current
  tick_on =
      let at = v.current in
      let on = v.is_on in
      ap
        (λ (p : Option ℕ).
          tick_current p (record s { ticks_since_boot = add64 s.ticks_since_boot 1 }))
        at
      ∙ if_yes _ _ (ap is_running on)

  spent :
      sub64 (add64 (s.task_table c).cpu_time 1) (s.task_table c).last_schedule ≡ (j + 1) % 2 ^ 64
  spent = let used = v.used in let before = v.before in omega arith

  expired :
      leb
        ((ticked c s).task_table c).quantum
        (sub64 ((ticked c s).task_table c).cpu_time ((ticked c s).task_table c).last_schedule)
      ≡ leb q ((j + 1) % 2 ^ 64)
  expired =
      ap (λ (t : Task). leb t.quantum (sub64 t.cpu_time t.last_schedule)) ticked_task
      ∙ (let slice = v.slices.0 in let e = spent in rw (slice, e) refl)

  -- The task goes on while its time is not used up.
  goes_on : suc j < q → timer_callback s ≡ some (ticked c s)
  unfolding tick_running
  goes_on h = tick_on ∙ if_no _ _ (expired ∙ ground arith)

  -- It is preempted when it is.
  pub is_preempted : suc j ≡ q → timer_callback s ≡ preempt c (ticked c s)
  unfolding tick_running
  is_preempted h = tick_on ∙ if_yes _ _ (expired ∙ ground arith)

  pub ticked-SameLinks : IsQueue (ticked c s) xs
  ticked-SameLinks =
      let q = v.queue in
      modify-IsQueue {s = record s { ticks_since_boot = add64 s.ticks_since_boot 1 }} c one_more
        (λ t. refl) (λ t. refl) (record { chain = q.chain; distinct = q.distinct })

  ticked_times : (y : ℕ) → ((ticked c s).task_table y).cpu_time < 2 ^ 64
  ticked_times y = elim (Bool-cases (y == c)) [
    | inl here ↦
        let e =
          ap (λ (t : Task). t.cpu_time)
            (if_yes (one_more (s.task_table y)) (s.task_table y) here) in
        omega (arith, e)
    | inr other ↦
        let e =
          ap (λ (t : Task). t.cpu_time)
            (if_no (one_more (s.task_table y)) (s.task_table y) other) in
        omega (arith, e, v.times y)
  ]

  ticked-Turn : suc j < q → Turn q (ticked c s) c xs (suc j)
  ticked-Turn h = record {
    queue = ticked-SameLinks;
    out = v.out;
    current = v.current;
    is_on = ap (λ (t : Task). t.state) ticked_task ∙ v.is_on;
    idle = v.idle;
    idle_at = v.idle_at;
    idle_out = v.idle_out;
    unlocked = v.unlocked;
    slices =
        Slices-keep s.task_table (ticked c s).task_table q (c ∷ xs)
          (put_keep (λ (t : Task). t.quantum) c one_more s.task_table (λ t. refl)) v.slices;
    times = ticked_times;
    before = let e = ap (λ (t : Task). t.last_schedule) ticked_task in omega (arith, e, v.before);
    used =
        let e = ap (λ (t : Task). t.last_schedule) ticked_task in
        let f = ap (λ (t : Task). t.cpu_time) ticked_task in omega (arith, e, f, v.used, v.before);
  }

Out-apart : (i : ℕ) (xs : List ℕ) (x : ℕ) (zs : List ℕ) → Out i (xs ++ x ∷ zs) → i ≢ x
Out-apart i [] x zs o = o.0
Out-apart i (y ∷ xs) x zs o = Out-apart i xs x zs o.1

Slices-append :
    (table : ℕ → Task) (q : ℕ) (xs : List ℕ) (c : ℕ)
    → Slices table q (c ∷ xs)
    → Slices table q (xs ++ c ∷ [])
Slices-append table q [] c (e, v) = (e, tt)
Slices-append table q (x ∷ xs) c (e, (f, v)) = (f, Slices-append table q xs c (e, v))

Out-rotate : (i : ℕ) (xs : List ℕ) (c : ℕ) → Out i (c ∷ xs) → Out i (xs ++ c ∷ [])
Out-rotate i xs c (ne, o) = Out-append i xs (c ∷ []) o (ne, tt)

-- what a tick leaves alone
pub record SameTurn (s t : Scheduler) : Type 0 where
  pub current : t.current_task ≡ s.current_task
  pub idle : t.idle_task ≡ s.idle_task
  pub unlocked : t.locked ≡ s.locked
  pub quantum : (y : ℕ) → (t.task_table y).quantum ≡ (s.task_table y).quantum

pub ticked-SameTurn : (c : ℕ) (s : Scheduler) → SameTurn s (ticked c s)
ticked-SameTurn c s = record {
  current = refl;
  idle = refl;
  unlocked = refl;
  quantum = put_keep (λ (t : Task). t.quantum) c one_more s.task_table (λ t. refl);
}

-- The preemption of the running task, from a state whose current turn is over.
abbrev pub queued : ℕ → Scheduler → Scheduler
queued c t = add_to_ready_queue (some c) (modify c (set_state ready) (record t { locked = true }))

module _ {q : ℕ} {s t : Scheduler} {c : ℕ} {xs : List ℕ} {j : ℕ} (v : Turn q s c xs j)
    (same : SameTurn s t) (queue : IsQueue t xs) where
  pub preempt-eq : preempt c t ≡ some (schedule_next (release (queued c t)))
  unfolding preempt acquire put_back
  preempt-eq =
      ap (λ (o : Option Scheduler). o >>= λ u. some (put_back c u))
        (if_no _ _ (same.unlocked ∙ v.unlocked))
      ∙ ap (λ (u : Scheduler). some (schedule_next (release u))) (if_no _ _ not_idle)
    where
      not_idle : same_task (some c) t.idle_task ≡ false
      not_idle = let e = same.idle ∙ v.idle_at in let ne = v.idle_out.0 in rw e (ground arith)

  pub queued-IsQueue : IsQueue (release (queued c t)) (xs ++ c ∷ [])
  unfolding release
  queued-IsQueue =
      let p =
        modify-IsQueue {s = record t { locked = true }} c (set_state ready) (λ t. refl) (λ t. refl)
          (record { chain = queue.chain; distinct = queue.distinct }) in
      let r = add_to_ready_queue-IsQueue c xs p v.out in
      record { chain = r.chain; distinct = r.distinct }

  pub queued-Rest : SameRest (record t { locked = true }) (queued c t)
  queued-Rest =
      SameRest-trans
        (modify-SameRest c (set_state ready) (record t { locked = true }) (λ t. refl) (λ t. refl))
        (add_to_ready_queue-SameRest c (modify c (set_state ready) (record t { locked = true })))

module _ {q : ℕ} {s t : Scheduler} {c x : ℕ} {xs : List ℕ} {j : ℕ} (v : Turn q s c (x ∷ xs) j)
    (same : SameTurn s t) (queue : IsQueue t (x ∷ xs)) where
  abbrev rest : SameRest (record t { locked = true }) (queued c t)
  rest = queued-Rest v same queue

  next-Switched :
      Switched (release (queued c t)) (schedule_next (release (queued c t))) x (xs ++ c ∷ [])
  unfolding release
  next-Switched =
      schedule_next-Switched x c (xs ++ c ∷ []) (queued-IsQueue v same queue)
        (rest.current ∙ same.current ∙ v.current) (λ e. v.out.0 (sym e))

  next-Turn :
      ((y : ℕ) → (t.task_table y).cpu_time < 2 ^ 64)
      → Turn q (schedule_next (release (queued c t))) x (xs ++ c ∷ []) 0
  unfolding release
  next-Turn times =
      let w = next-Switched in
      let quantum = λ (y : ℕ). w.quantum y ∙ rest.quantum y ∙ same.quantum y in
      let cpu = λ (y : ℕ). w.cpu y ∙ rest.cpu y in
      record {
        queue = w.queue;
        out = Out-append x xs (c ∷ []) queue.distinct.0 ((λ e. v.out.0 (sym e)), tt);
        current = w.current;
        is_on = w.is_on;
        idle = v.idle;
        idle_at = w.idle ∙ rest.idle ∙ same.idle ∙ v.idle_at;
        idle_out = Out-rotate v.idle (x ∷ xs) c v.idle_out;
        unlocked = w.unlocked;
        slices =
            Slices-keep s.task_table (schedule_next (release (queued c t))).task_table q
              (x ∷ xs ++ c ∷ []) quantum (Slices-append s.task_table q (x ∷ xs) c v.slices);
        times = λ y. omega (arith, cpu y, times y);
        before = omega (arith, cpu x, times x, w.fresh);
        used = omega (arith, cpu x, times x, w.fresh);
      }

-- A tick that ends the turn hands the processor to the first ready task.
pub tick-next :
    {q : ℕ} {s : Scheduler} {c x : ℕ} {xs : List ℕ} {j : ℕ}
    → Turn q s c (x ∷ xs) j
    → q < 2 ^ 64
    → suc j ≡ q
    → (t : Scheduler) × (timer_callback s ≡ some t) × Turn q t x (xs ++ c ∷ []) 0
tick-next {q} {s} {c} {x} {xs} v short e =
    let same = ticked-SameTurn c s in
    let queue = ticked-SameLinks v short in
    (
      _,
      is_preempted v short e ∙ preempt-eq v same queue,
      next-Turn v same queue (ticked_times v short),
    )

-- Any other tick leaves the running task on.
pub tick_again :
    {q : ℕ} {s : Scheduler} {c : ℕ} {xs : List ℕ} {j : ℕ}
    → Turn q s c xs j
    → q < 2 ^ 64
    → suc j < q
    → (t : Scheduler) × (timer_callback s ≡ some t) × Turn q t c xs (suc j)
tick_again v short h = (_, goes_on v short h, ticked-Turn v short h)
