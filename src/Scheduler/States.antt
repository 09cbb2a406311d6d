-- ===== src/Scheduler/States.antt =====
-- What the operations on the ready queue, and a switch, do to the states of tasks.
use kronosos.Base.{
  ℕ, ◌≡◌, ◌≢◌, ◌∙◌, refl, ap, Bool, ◌||◌, ◌⊎◌, Option, none, some, List, [], ◌∷◌, ◌++◌, if_yes,
  if_no, Bool-cases, ◌==◌, inl, inr,
}
use kronosos.Scheduler.{
  TaskState, ready, is_ready, is_running, Task, Scheduler, modify, modify_at, set_next, set_prev,
  set_state, set_head, take_head, link_behind, add_to_ready_queue,
}
use kronosos.Scheduler.Apart.{Out}
use kronosos.Scheduler.Chain.{put, put-other, put_self}
use kronosos.Scheduler.Switch.{put_keep, stop, start, landed}

-- A task that is ready or runs.
abbrev pub is_alive : TaskState → Bool
is_alive k = is_ready k || is_running k

-- the tasks of the queue are ready
abbrev pub AllReady : (ℕ → Task) → List ℕ → Type 0
AllReady table [] = Unit
AllReady table (y ∷ ys) = ((table y).state ≡ ready) × AllReady table ys

pub AllReady-mono :
    (table table' : ℕ → Task) (xs : List ℕ) (x : ℕ)
    → ((y : ℕ) → x ≢ y → (table y).state ≡ ready → (table' y).state ≡ ready)
    → Out x xs
    → AllReady table xs
    → AllReady table' xs
AllReady-mono table table' [] x keep out all = tt
AllReady-mono table table' (y ∷ ys) x keep (ne, out) (r, all) =
    (keep y ne r, AllReady-mono table table' ys x keep out all)

pub AllReady-append :
    (table : ℕ → Task) (xs : List ℕ) (x : ℕ)
    → (table x).state ≡ ready
    → AllReady table xs
    → AllReady table (xs ++ x ∷ [])
AllReady-append table [] x r all = (r, tt)
AllReady-append table (y ∷ ys) x r (r', all) = (r', AllReady-append table ys x r all)

-- A field that a change of links leaves alone.
module _ {ℓ} {A : Type ℓ} (g : Task → A) (next : (p : Option ℕ) (t : Task) → g (set_next p t) ≡ g t)
    (prev : (p : Option ℕ) (t : Task) → g (set_prev p t) ≡ g t) where
  set_head-keep :
      (p : Option ℕ) (s : Scheduler) (y : ℕ) → g ((set_head p s).task_table y) ≡ g (s.task_table y)
  unfolding set_head
  set_head-keep none s y = refl
  set_head-keep (some h) s y = put_keep g h (set_prev none) s.task_table (prev none) y

  pub take_head-keep :
      (x : ℕ) (s : Scheduler) (y : ℕ) → g ((take_head x s).task_table y) ≡ g (s.task_table y)
  unfolding take_head
  take_head-keep x s y =
      let t = set_head (s.task_table x).next s in
      put_keep g x (set_prev none) (put x (set_next none) t.task_table) (prev none) y
      ∙ put_keep g x (set_next none) t.task_table (next none) y
      ∙ set_head-keep (s.task_table x).next s y

  led-keep :
      (p q : Option ℕ) (s : Scheduler) (y : ℕ)
      → g ((modify_at p (set_next q) s).task_table y) ≡ g (s.task_table y)
  led-keep none q s y = refl
  led-keep (some l) q s y = put_keep g l (set_next q) s.task_table (next q) y

  link_behind-keep :
      (h : Option ℕ) (x : ℕ) (s : Scheduler) (y : ℕ)
      → g ((link_behind h x s).task_table y) ≡ g (s.task_table y)
  unfolding link_behind
  link_behind-keep none x s y = put_keep g x (set_prev none) s.task_table (prev none) y
  link_behind-keep (some h) x s y =
      put_keep g x (set_prev s.ready_queue_tail)
        (modify_at s.ready_queue_tail (set_next (some x)) s).task_table (prev s.ready_queue_tail) y
      ∙ led-keep s.ready_queue_tail (some x) s y

  pub linked-keep :
      (x : ℕ) (s : Scheduler) (y : ℕ)
      → g ((link_behind s.ready_queue_head x (modify x (set_next none) s)).task_table y)
        ≡ g (s.task_table y)
  linked-keep x s y =
      link_behind-keep s.ready_queue_head x (modify x (set_next none) s) y
      ∙ put_keep g x (set_next none) s.task_table (next none) y

-- The task that is put into the queue becomes ready; the others keep their states.
module _ (x : ℕ) (s : Scheduler) where
  pub added_state : ((add_to_ready_queue (some x) s).task_table x).state ≡ ready
  unfolding add_to_ready_queue
  added_state =
      ap (λ (t : Task). t.state)
        (put_self x (set_state ready)
          (link_behind s.ready_queue_head x (modify x (set_next none) s)).task_table)

  pub added_others :
      (y : ℕ)
      → x ≢ y
      → ((add_to_ready_queue (some x) s).task_table y).state ≡ (s.task_table y).state
  unfolding add_to_ready_queue
  added_others y ne =
      ap (λ (t : Task). t.state)
        (put-other x (set_state ready)
          (link_behind s.ready_queue_head x (modify x (set_next none) s)).task_table y ne)
      ∙ linked-keep (λ (t : Task). t.state) (λ p t. refl) (λ p t. refl) x s y

  pub added_tid : ((add_to_ready_queue (some x) s).task_table x).tid ≡ (s.task_table x).tid
  unfolding add_to_ready_queue
  added_tid =
      put_keep (λ (t : Task). t.tid) x (set_state ready)
        (link_behind s.ready_queue_head x (modify x (set_next none) s)).task_table (λ t. refl) x
      ∙ linked-keep (λ (t : Task). t.tid) (λ p t. refl) (λ p t. refl) x s x

-- what a switch from `c` to `x` does to the state of a task
stop_state : (t : Task) → ((stop t).state ≡ t.state) ⊎ ((stop t).state ≡ ready)
stop_state t = elim (Bool-cases (is_running t.state)) [
  | inl on ↦ inr (ap (λ (u : Task). u.state) (if_yes _ _ on))
  | inr off ↦ inl (ap (λ (u : Task). u.state) (if_no _ _ off))
]

pub landed_state :
    (x c : ℕ) (s : Scheduler) (y : ℕ)
    → x ≢ y
    → (((landed x c s).task_table y).state ≡ (s.task_table y).state)
      ⊎ (((landed x c s).task_table y).state ≡ ready)
landed_state x c s y ne =
    let other = ap (λ (t : Task). t.state) (put-other x start (put c stop s.task_table) y ne) in
    elim (Bool-cases (y == c)) [
      | inl here ↦
          let e =
            other
            ∙ ap (λ (t : Task). t.state) (if_yes (stop (s.task_table y)) (s.task_table y) here) in
          elim (stop_state (s.task_table y)) [ inl kept ↦ inl (e ∙ kept) | inr off ↦ inr (e ∙ off) ]
      | inr apart ↦ inl (
          other ∙ ap (λ (t : Task). t.state) (if_no (stop (s.task_table y)) (s.task_table y) apart))
    ]
