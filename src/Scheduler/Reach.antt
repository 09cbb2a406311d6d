-- ===== src/Scheduler/Reach.antt =====
-- The states that `scheduler_init`, the creation of tasks and the ticks of the timer lead to.
use kronosos.Base.{ℕ, ◌≡◌, ◌≢◌, ◌∙◌, refl, sym, ap, Bool, true, some, List, [], ◌∷◌, ◌++◌, arith}
use mathlib.Core.Path.{subst}
use mathlib.Core.Option.{some-injective}
use kronosos.Vmm.{Vmm}
use kronosos.Scheduler.{TaskState, Task, Scheduler}
use kronosos.Scheduler.Calls.{timer_callback}
use kronosos.Scheduler.Create.{create_task}
use kronosos.Scheduler.Boot.{static_state, init}
use kronosos.Scheduler.Apart.{Out-append}
use kronosos.Scheduler.Chain.{nil}
use kronosos.Scheduler.States.{is_alive, AllReady, AllReady-append}
use kronosos.Scheduler.Kept.{Kept, is_free}
use kronosos.Scheduler.Creation.{Created, failed, created, create_task-Created}
use kronosos.Scheduler.Sound.{IsSound}
use kronosos.Scheduler.Timer.{timer_callback-IsSound}

-- One call after the other, each of which returns.
pub data Reachable (vmm : Vmm) : Scheduler → Type 0 where
  start : Reachable vmm (init (static_state vmm))
  create :
      {s t : Scheduler} (elf_load : Vmm → Bool × Vmm) (priority tid : ℕ)
      → Reachable vmm s
      → create_task elf_load priority s ≡ some (tid, t)
      → Reachable vmm t
  tick : {s t : Scheduler} → Reachable vmm s → timer_callback s ≡ some t → Reachable vmm t

init-IsSound : (vmm : Vmm) → IsSound (init (static_state vmm))
unfolding init
init-IsSound vmm = record {
  xs = [];
  well = record {
    queue = record { chain = nil refl refl; distinct = tt };
    all = tt;
    current = 0;
    current_at = refl;
    current_alive = refl;
    idle = 0;
    idle_at = refl;
    idle_alive = refl;
    idle_out = tt;
    unlocked = refl;
    next = ground arith;
  };
  out = tt;
}

AllReady-Kept :
    {s t : Scheduler} (xs : List ℕ) → Kept s t → AllReady s.task_table xs → AllReady t.task_table xs
AllReady-Kept [] k all = tt
AllReady-Kept (y ∷ ys) k (r, all) = (k.state y (ap is_alive r) ∙ r, AllReady-Kept ys k all)

-- A task that is ready or runs is in no free slot.
alive_apart :
    (table : ℕ → Task) (x y : ℕ)
    → is_free (table x).state ≡ true
    → is_alive (table y).state ≡ true
    → y ≢ x
alive_apart table x y free a e =
    clash (table x).state (table y).state (ap (λ (z : ℕ). (table z).state) (sym e)) free a
  where
    clash : (k l : TaskState) → k ≡ l → is_free k ≡ true → is_alive l ≡ true → ⊥
    clash k l same free a = ground arith

Created-IsSound :
    {s : Scheduler} (v : IsSound s) {r : ℕ × Scheduler} → Created s v.xs r → IsSound r.1
Created-IsSound v (failed q unlocked k) =
    let w = v.well in
    record {
      xs = v.xs;
      well = record {
        queue = q;
        all = AllReady-Kept v.xs k w.all;
        current = w.current;
        current_at = k.current ∙ w.current_at;
        current_alive = ap is_alive (k.state w.current w.current_alive) ∙ w.current_alive;
        idle = w.idle;
        idle_at = k.idle ∙ w.idle_at;
        idle_alive = ap is_alive (k.state w.idle w.idle_alive) ∙ w.idle_alive;
        idle_out = w.idle_out;
        unlocked = unlocked;
        next = k.next;
      };
      out = v.out;
    }
Created-IsSound {s} v (created {tid} {t} x pos free out named is_new q unlocked k) =
    let w = v.well in
    record {
      xs = v.xs ++ x ∷ [];
      well = record {
        queue = q;
        all = AllReady-append t.task_table v.xs x is_new (AllReady-Kept v.xs k w.all);
        current = w.current;
        current_at = k.current ∙ w.current_at;
        current_alive = ap is_alive (k.state w.current w.current_alive) ∙ w.current_alive;
        idle = w.idle;
        idle_at = k.idle ∙ w.idle_at;
        idle_alive = ap is_alive (k.state w.idle w.idle_alive) ∙ w.idle_alive;
        idle_out =
            Out-append w.idle v.xs (x ∷ []) w.idle_out
              (alive_apart s.task_table x w.idle free w.idle_alive, tt);
        unlocked = unlocked;
        next = k.next;
      };
      out =
          Out-append w.current v.xs (x ∷ []) v.out
            (alive_apart s.task_table x w.current free w.current_alive, tt);
    }

-- In every state that the calls lead to from `scheduler_init` on, the ready queue is a well-formed
-- list of ready tasks, neither the current task nor the idle task stands in it, both are ready or
-- run, and the lock is free.
pub Reachable-IsSound : {vmm : Vmm} {s : Scheduler} → Reachable vmm s → IsSound s
Reachable-IsSound {vmm} start = init-IsSound vmm
Reachable-IsSound (create {s} {t} elf_load priority tid r e) =
    let v = Reachable-IsSound r in
    let w = v.well in
    let (result, f, c) = create_task-Created elf_load priority s w.queue w.all w.unlocked w.next in
    let same : result ≡ (tid, t) = some-injective _ _ (sym f ∙ e) in
    subst (λ (p : ℕ × Scheduler). IsSound p.1) same (Created-IsSound v c)
Reachable-IsSound (tick {s} {t} r e) =
    let (u, f, v) = timer_callback-IsSound s (Reachable-IsSound r) in
    subst IsSound (some-injective _ _ (sym f ∙ e)) v

-- In every such state, creating a task and a tick of the timer return: they do not wait for the lock.
-- Of creating a task, `init_task_context` and the loader are assumed to return.
pub Reachable-returns :
    {vmm : Vmm} {s : Scheduler} (elf_load : Vmm → Bool × Vmm) (priority : ℕ)
    → Reachable vmm s
    → ((r : ℕ × Scheduler) × (create_task elf_load priority s ≡ some r))
      × ((t : Scheduler) × (timer_callback s ≡ some t))
Reachable-returns {s = s} elf_load priority r =
    let v = Reachable-IsSound r in
    let w = v.well in
    let (result, f, _) = create_task-Created elf_load priority s w.queue w.all w.unlocked w.next in
    let (t, g, _) = timer_callback-IsSound s v in ((result, f), (t, g))
