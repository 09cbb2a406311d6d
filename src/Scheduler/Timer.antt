-- ===== src/Scheduler/Timer.antt =====
-- `timer_callback` between the calls of the scheduler.
use kronosos.Base.{
  ℕ, ◌≡◌, ◌≢◌, ◌∙◌, refl, sym, ap, true, false, Option, some, List, [], ◌∷◌, ◌++◌, leb, ◌==◌,
  if_yes, if_no, Bool-cases, inl, inr, arith, add64, sub64,
}
use mathlib.Core.Path.{subst}
use kronosos.Scheduler.{
  ready, is_running, Task, Scheduler, same_task, modify, set_state, add_to_ready_queue,
  schedule_next,
}
use kronosos.Scheduler.Calls.{
  release, put_back, preempt, tick_running, tick_current, timer_callback, ◌>>=◌,
}
use kronosos.Scheduler.Apart.{Out, Out-append}
use kronosos.Scheduler.Chain.{put-other}
use kronosos.Scheduler.Ready.{IsQueue, add_to_ready_queue-IsQueue}
use kronosos.Scheduler.Switch.{put_keep}
use kronosos.Scheduler.Fair.{modify-IsQueue, add_to_ready_queue-SameRest}
use kronosos.Scheduler.Ticks.{one_more, ticked}
use kronosos.Scheduler.States.{
  is_alive, AllReady, AllReady-mono, AllReady-append, added_state, added_others,
}
use kronosos.Scheduler.Creation.{Queue-same, acquired}
use kronosos.Scheduler.Sound.{IsWell, IsSound, schedule_next-IsSound}

-- the state while the lock is held
abbrev locked : Scheduler → Scheduler
locked s = record s { locked = true }

-- The lock and the ticks do not matter.
pub released-IsWell : {s : Scheduler} {xs : List ℕ} → IsWell s xs → IsWell (release (locked s)) xs
unfolding release
released-IsWell w = record {
  queue = Queue-same refl refl refl w.queue;
  all = w.all;
  current = w.current;
  current_at = w.current_at;
  current_alive = w.current_alive;
  idle = w.idle;
  idle_at = w.idle_at;
  idle_alive = w.idle_alive;
  idle_out = w.idle_out;
  unlocked = refl;
  next = w.next;
}

abbrev later : Scheduler → Scheduler
later s = record s { ticks_since_boot = add64 s.ticks_since_boot 1 }

later-IsWell : {s : Scheduler} {xs : List ℕ} → IsWell s xs → IsWell (later s) xs
later-IsWell w = record {
  queue = Queue-same refl refl refl w.queue;
  all = w.all;
  current = w.current;
  current_at = w.current_at;
  current_alive = w.current_alive;
  idle = w.idle;
  idle_at = w.idle_at;
  idle_alive = w.idle_alive;
  idle_out = w.idle_out;
  unlocked = w.unlocked;
  next = w.next;
}

AllReady-same :
    (table table' : ℕ → Task) (xs : List ℕ)
    → ((y : ℕ) → (table' y).state ≡ (table y).state)
    → AllReady table xs
    → AllReady table' xs
AllReady-same table table' [] same all = tt
AllReady-same table table' (y ∷ ys) same (r, all) =
    (same y ∙ r, AllReady-same table table' ys same all)

-- The running task has used one more tick.
ticked-IsWell : (c : ℕ) {s : Scheduler} {xs : List ℕ} → IsWell s xs → IsWell (ticked c s) xs
ticked-IsWell c {s} {xs} w =
    let state = put_keep (λ (t : Task). t.state) c one_more s.task_table (λ t. refl) in
    record {
      queue =
          modify-IsQueue {s = later s} c one_more (λ t. refl) (λ t. refl) (later-IsWell w).queue;
      all = AllReady-same s.task_table (ticked c s).task_table xs state w.all;
      current = w.current;
      current_at = w.current_at;
      current_alive = ap is_alive (state w.current) ∙ w.current_alive;
      idle = w.idle;
      idle_at = w.idle_at;
      idle_alive = ap is_alive (state w.idle) ∙ w.idle_alive;
      idle_out = w.idle_out;
      unlocked = w.unlocked;
      next = w.next;
    }

-- The current task waits behind the others, when it is not the idle task.
queued-IsWell :
    {s : Scheduler} {xs : List ℕ} (w : IsWell s xs)
    → Out w.current xs
    → w.idle ≢ w.current
    → IsWell
        (release
          (add_to_ready_queue (some w.current) (modify w.current (set_state ready) (locked s))))
        (xs ++ w.current ∷ [])
unfolding release
queued-IsWell {s} {xs} w out ne =
    let c = w.current in
    let m = modify c (set_state ready) (locked s) in
    let u = add_to_ready_queue (some c) m in
    let rest = add_to_ready_queue-SameRest c m in
    let moved : IsQueue m xs =
      modify-IsQueue {s = locked s} c (set_state ready) (λ t. refl) (λ t. refl)
        (Queue-same refl refl refl w.queue) in
    record {
      queue = Queue-same refl refl refl (add_to_ready_queue-IsQueue c xs moved out);
      all = AllReady-append u.task_table xs c (added_state c m) (
          AllReady-mono s.task_table u.task_table xs c (λ y apart r. others y apart ∙ r) out w.all);
      current = c;
      current_at = rest.current ∙ w.current_at;
      current_alive = ap is_alive (added_state c m);
      idle = w.idle;
      idle_at = rest.idle ∙ w.idle_at;
      idle_alive = ap is_alive (others w.idle (λ e. ne (sym e))) ∙ w.idle_alive;
      idle_out = Out-append w.idle xs (c ∷ []) w.idle_out (ne, tt);
      unlocked = refl;
      next = λ e. w.next (sym rest.next_tid ∙ e);
    }
  where
    others :
        (y : ℕ)
        → w.current ≢ y
        → ((add_to_ready_queue
              (some w.current)
              (modify w.current (set_state ready) (locked s))).task_table
            y).state
          ≡ (s.task_table y).state
    others y apart =
        added_others w.current (modify w.current (set_state ready) (locked s)) y apart
        ∙ ap (λ (t : Task). t.state) (put-other w.current (set_state ready) s.task_table y apart)

-- The end of a time quantum.
put_back-IsSound :
    {s : Scheduler} {xs : List ℕ} (w : IsWell s xs)
    → Out w.current xs
    → IsSound (put_back w.current (locked s))
unfolding put_back
put_back-IsSound {s} {xs} w out = elim (Bool-cases (same_task (some w.current) s.idle_task)) [
  | inl same ↦
      subst (λ (u : Scheduler). IsSound (schedule_next (release u))) (sym (if_yes _ _ same))
        (schedule_next-IsSound _ xs (released-IsWell w))
  | inr other ↦
      subst (λ (u : Scheduler). IsSound (schedule_next (release u))) (sym (if_no _ _ other))
        (schedule_next-IsSound _ _ (queued-IsWell w out (apart other)))
]
  where
    apart : same_task (some w.current) s.idle_task ≡ false → w.idle ≢ w.current
    apart other e =
        let f : (w.current == w.idle) ≡ false =
          ap (same_task (some w.current)) (sym w.idle_at) ∙ other in
        ground arith

tick_running-IsSound :
    {s : Scheduler} {xs : List ℕ} (w : IsWell s xs)
    → Out w.current xs
    → (t : Scheduler) × (tick_running w.current (later s) ≡ some t) × IsSound t
unfolding tick_running preempt ticked-IsWell
tick_running-IsSound {s} {xs} w out =
    let c = w.current in
    let t = ticked-IsWell c w in
    let task = (ticked c s).task_table c in
    elim (Bool-cases (leb task.quantum (sub64 task.cpu_time task.last_schedule))) [
      | inl over ↦ (
        put_back c (locked (ticked c s)),
        if_yes _ _ over
            ∙ ap (λ (o : Option Scheduler). o >>= (λ (u : Scheduler). some (put_back c u)))
                (acquired (ticked c s) w.unlocked),
        put_back-IsSound t out,
      )
      | inr going ↦ (ticked c s, if_no _ _ going, record { xs = xs; well = t; out = out })
    ]

-- `timer_callback` returns, and all is well again.
pub timer_callback-IsSound :
    (s : Scheduler) → IsSound s → (t : Scheduler) × (timer_callback s ≡ some t) × IsSound t
unfolding timer_callback tick_current
timer_callback-IsSound s v =
    let w = v.well in
    let at = ap (λ (p : Option ℕ). tick_current p (later s)) w.current_at in
    elim (Bool-cases (is_running (s.task_table w.current).state)) [
      | inl on ↦
          let (t, e, sound) = tick_running-IsSound w v.out in (t, at ∙ if_yes _ _ on ∙ e, sound)
      | inr off ↦ (
        schedule_next (later s),
        at ∙ if_no _ _ off,
        schedule_next-IsSound (later s) v.xs (later-IsWell w),
      )
    ]
