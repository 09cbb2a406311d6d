-- ===== src/Scheduler/Creation.antt =====
-- `scheduler_create_task`: what it does to the ready queue.
use kronosos.Base.{
  if_both, ◌%◌, ◌^◌, ℕ, zero, suc, ◌+◌, ◌≡◌, ◌≢◌, ◌∙◌, refl, sym, ap, Bool, true, false, Option,
  none, some, List, [], ◌∷◌, ◌++◌, ◌==◌, if◌then◌else◌, if_yes, if_no, Bool-cases, inl, inr, arith,
}
use mathlib.Core.Path.{subst}
use mathlib.Core.Option.{some-injective}
use kronosos.Vmm.{Vmm}
use kronosos.Vmm.Spaces.{create_address_space}
use kronosos.Scheduler.{ready, Task, Scheduler, task_max_count, modify, allocate_tid}
use kronosos.Scheduler.Calls.{acquire, release, free_task_resources, ◌>>=◌}
use kronosos.Scheduler.Create.{
  find_slot, count_task, fresh_task, user_stack_size, create_task_stack, load_task, give_stack,
  fill_slot, create_task,
}
use kronosos.Scheduler.Apart.{Out}
use kronosos.Scheduler.Chain.{Chain-put, Chain-eq, put_self}
use kronosos.Scheduler.Ready.{IsQueue, add_to_ready_queue-IsQueue}
use kronosos.Scheduler.Kept.{
  is_free, Kept, free_task_resources-ind, modify-Kept, added-Kept, Kept-same,
}
use kronosos.Scheduler.States.{AllReady, added_tid, added_state}
use kronosos.Scheduler.Switch.{put_keep}
use kronosos.Scheduler.Fair.{modify-IsQueue}

-- A task that is new or terminated is not among them.
slot-Out :
    (table : ℕ → Task) (x : ℕ) (xs : List ℕ)
    → is_free (table x).state ≡ true
    → AllReady table xs
    → Out x xs
slot-Out table x [] h all = tt
slot-Out table x (y ∷ ys) h (r, all) = (differ, slot-Out table x ys h all)
  where
    differ : x ≢ y
    differ e =
        let r' : (table x).state ≡ ready = ap (λ (z : ℕ). (table z).state) e ∙ r in ground arith

find_slot-free :
    (n i : ℕ) (s : Scheduler) {x : ℕ}
    → find_slot n i s ≡ some x
    → is_free (s.task_table x).state ≡ true
unfolding find_slot
find_slot-free zero i s e = cc
find_slot-free (suc n) i s e = elim (Bool-cases (is_free (s.task_table i).state)) [
  | inl free ↦
      let same : some i ≡ some _ = sym (if_yes _ _ free) ∙ e in
      subst (λ (z : ℕ). is_free (s.task_table z).state ≡ true) (some-injective _ _ same) free
  | inr taken ↦ find_slot-free n (i + 1) s (sym (if_no _ _ taken) ∙ e)
]

-- What `scheduler_create_task` leaves from the state `s` with the ready tasks `xs`: no task, the file
-- or the memory being at fault, or a new task behind the others, in a slot that was free. The lock
-- is free in both cases, and the tasks that are ready or run keep their states.
pub data Created (s : Scheduler) (xs : List ℕ) : ℕ × Scheduler → Type 0 where
  failed : {t : Scheduler} → IsQueue t xs → t.locked ≡ false → Kept s t → Created s xs (0, t)
  created :
      {tid : ℕ} {t : Scheduler} (x : ℕ)
      → tid ≢ 0
      → is_free (s.task_table x).state ≡ true
      → Out x xs
      → (t.task_table x).tid ≡ tid
      → (t.task_table x).state ≡ ready
      → IsQueue t (xs ++ x ∷ [])
      → t.locked ≡ false
      → Kept s t
      → Created s xs (tid, t)

-- the fields of a state that the queue is about
pub Queue-same :
    {s t : Scheduler} {xs : List ℕ}
    → t.task_table ≡ s.task_table
    → t.ready_queue_head ≡ s.ready_queue_head
    → t.ready_queue_tail ≡ s.ready_queue_tail
    → IsQueue s xs
    → IsQueue t xs
Queue-same e f g q = record { chain = Chain-eq e g f q.chain; distinct = q.distinct }

-- any change of a task that is in no queue
modify_apart :
    {s : Scheduler} {xs : List ℕ} (x : ℕ) (f : Task → Task)
    → Out x xs
    → IsQueue s xs
    → IsQueue (modify x f s) xs
modify_apart {xs = xs} x f out q = record {
  chain = Chain-put xs x f out q.chain;
  distinct = q.distinct;
}

pub free_task_resources-IsQueue :
    {s : Scheduler} {xs : List ℕ} (x : ℕ) → IsQueue s xs → IsQueue (free_task_resources x s) xs
free_task_resources-IsQueue {s} {xs} x q =
    free_task_resources-ind (λ u. IsQueue u xs) x
      (λ u v p.
        modify-IsQueue x (λ (t : Task). record t { page_table = 0 }) (λ t. refl) (λ t. refl)
          (Queue-same refl refl refl p))
      (λ u v p.
        modify-IsQueue x (λ (t : Task). record t { stack_top = 0 }) (λ t. refl) (λ t. refl)
          (Queue-same refl refl refl p))
      s q

free_task_resources-Kept :
    (start : Scheduler) (x : ℕ)
    → is_free (start.task_table x).state ≡ true
    → {s : Scheduler} → Kept start s
    → Kept start (free_task_resources x s)
free_task_resources-Kept start x free {s} k =
    free_task_resources-ind (Kept start) x
      (λ u v p.
        modify-Kept start x free (λ (t : Task). record t { page_table = 0 })
          (Kept-same refl refl refl refl p))
      (λ u v p.
        modify-Kept start x free (λ (t : Task). record t { stack_top = 0 })
          (Kept-same refl refl refl refl p))
      s k

-- The slot `x` was free when the call began, in the state `start`.
module _ (elf_load : Vmm → Bool × Vmm) (start : Scheduler) {xs : List ℕ} (x : ℕ) (out : Out x xs)
    (free : is_free (start.task_table x).state ≡ true) where
  load_task-Created :
      {s : Scheduler} (tid : ℕ)
      → tid ≢ 0
      → (s.task_table x).tid ≡ tid
      → IsQueue s xs
      → Kept start s
      → Created start xs (load_task elf_load x tid s)
  unfolding load_task release count_task
  load_task-Created {s} tid pos same q k =
      let t = record s { vmm = (elf_load s.vmm).1 } in
      let moved : IsQueue t xs = Queue-same refl refl refl q in
      let kept : Kept start t = Kept-same refl refl refl refl k in
      if_both (Created start xs) _ _ _
        (created x pos free out (added_tid x t ∙ same) (added_state x t)
          (Queue-same refl refl refl (add_to_ready_queue-IsQueue x xs moved out)) refl
          (Kept-same refl refl refl refl (added-Kept start x free kept)))
        (failed (Queue-same refl refl refl (free_task_resources-IsQueue x moved)) refl
          (Kept-same refl refl refl refl (free_task_resources-Kept start x free kept)))

  give_stack-Created :
      {s : Scheduler} (tid page_table : ℕ)
      → tid ≢ 0
      → (s.task_table x).tid ≡ tid
      → IsQueue s xs
      → Kept start s
      → Created start xs (give_stack elf_load x tid page_table s)
  unfolding give_stack release
  give_stack-Created {s} tid page_table pos same q k =
      let (stack_top, vmm') = create_task_stack user_stack_size page_table s.vmm in
      let f : Task → Task =
        λ (t : Task). record t { stack_size = user_stack_size; stack_top = stack_top } in
      let moved : IsQueue (modify x f (record s { vmm = vmm' })) xs =
        modify_apart x f out (Queue-same refl refl refl q) in
      let kept : Kept start (modify x f (record s { vmm = vmm' })) =
        modify-Kept start x free f (Kept-same refl refl refl refl k) in
      if_both (Created start xs) _ _ _
        (failed (Queue-same refl refl refl moved) refl (Kept-same refl refl refl refl kept))
        (load_task-Created tid pos
          (put_keep (λ (t : Task). t.tid) x f s.task_table (λ t. refl) x ∙ same) moved kept)

  fill_slot-Created :
      {s : Scheduler} (priority : ℕ)
      → s.next_tid ≢ 0
      → IsQueue s xs
      → Kept start s
      → Created start xs (fill_slot elf_load priority x s)
  unfolding fill_slot release allocate_tid
  fill_slot-Created {s} priority pos q k =
      let (page_table, vmm') = create_address_space s.vmm in
      let f : Task → Task = λ (_ : Task).
        record (fresh_task s.next_tid priority s.ticks_since_boot) { page_table = page_table } in
      let kept : Kept start (
          modify x f (record s {
            next_tid = if (s.next_tid + 1) % 2 ^ 32 == 0 then 1 else (s.next_tid + 1) % 2 ^ 32;
            vmm = vmm';
          })) =
        modify-Kept start x free f
          (record { current = k.current; idle = k.idle; state = k.state; next = ground arith }) in
      let moved = modify_apart x f out (Queue-same refl refl refl q) in
      if_both (Created start xs) _ _ _
        (failed (Queue-same refl refl refl moved) refl (Kept-same refl refl refl refl kept))
        (give_stack-Created s.next_tid page_table pos
          (ap (λ (t : Task). t.tid) (put_self x f s.task_table)) moved kept)

pub acquired : (s : Scheduler) → s.locked ≡ false → acquire s ≡ some (record s { locked = true })
unfolding acquire
acquired s free = if_no _ _ free

-- `scheduler_create_task` returns when the lock is free, whatever the loader does: the ready queue is
-- as before, or a new ready task with an identifier other than 0 stands behind its tasks, in a slot
-- that was free. The tasks that are ready or run keep their states, and the lock is free again.
pub create_task-Created :
    (elf_load : Vmm → Bool × Vmm) (priority : ℕ) (s : Scheduler) {xs : List ℕ}
    → IsQueue s xs
    → AllReady s.task_table xs
    → s.locked ≡ false
    → s.next_tid ≢ 0
    → (r : ℕ × Scheduler) × (create_task elf_load priority s ≡ some r) × Created s xs r
unfolding create_task release
create_task-Created elf_load priority s {xs} q all free pos = (
  _,
  ap (λ (o : Option Scheduler). o >>= (λ (t : Scheduler). some (slot t))) (acquired s free),
  by_slot (find_slot task_max_count 0 (record s { locked = true })) refl,
)
  where
    slot : Scheduler → ℕ × Scheduler
    slot t = elim (find_slot task_max_count 0 t) [
      | none ↦ (0, release t)
      | some x ↦ fill_slot elf_load priority x t
    ]

    by_slot :
        (o : Option ℕ)
        → find_slot task_max_count 0 (record s { locked = true }) ≡ o
        → Created s xs (elim o [
          | none ↦ (0, release (record s { locked = true }))
          | some x ↦ fill_slot elf_load priority x (record s { locked = true })
        ])
    by_slot none e =
        failed (Queue-same refl refl refl q) refl
          (record { current = refl; idle = refl; state = λ y a. refl; next = pos })
    by_slot (some x) e =
        let free = find_slot-free task_max_count 0 (record s { locked = true }) e in
        fill_slot-Created elf_load s x (slot-Out s.task_table x xs free all) free priority pos
          (Queue-same refl refl refl q)
          (record { current = refl; idle = refl; state = λ y a. refl; next = pos })
