-- ===== src/Scheduler/Ready.antt =====
-- The ready queue: what its operations do to the list of tasks that it stands for.
use kronosos.Base.{ℕ, ◌≡◌, ◌∙◌, refl, sym, Option, none, some, List, [], ◌∷◌, ◌++◌}
use mathlib.Core.Path.{subst}
use kronosos.Scheduler.{ready, Task, Scheduler, set_next, set_prev, set_state, add_to_ready_queue}
use kronosos.Scheduler.Apart.{Out, Distinct, Out-append}
use kronosos.Scheduler.Chain.{
  Chain, nil, cons, put, Chain-same, Chain-put, Chain-set_next, Chain-append, Chain-moved, Chain-eq,
  next-put_keep, prev-put_keep, prev-set_prev, next-set_next, next-set_prev, next-put_other,
  last_in,
}

-- The ready queue stands for the tasks `xs`, first to last.
pub record IsQueue (s : Scheduler) (xs : List ℕ) : Type 0 where
  pub chain : Chain s.task_table s.ready_queue_tail none none s.ready_queue_head xs
  pub distinct : Distinct xs

pub last_some :
    {table : ℕ → Task} {last after prev head : Option ℕ} (y : ℕ) (ys : List ℕ)
    → Chain table last after prev head (y ∷ ys)
    → (l : ℕ) × (last ≡ some l)
last_some y [] (cons at back (nil end same)) = (y, same)
last_some y (z ∷ zs) (cons at back rest) = last_some z zs rest

pub head_some :
    {table : ℕ → Task} {last after prev head : Option ℕ} {y : ℕ} {ys : List ℕ}
    → Chain table last after prev head (y ∷ ys)
    → head ≡ some y
head_some (cons at back rest) = at

pub head_none :
    {table : ℕ → Task} {last after prev head : Option ℕ}
    → Chain table last after prev head []
    → head ≡ after
head_none (nil at same) = at

-- What `add_to_ready_queue` leaves, by the queue before.
record Added (x : ℕ) (links : ℕ → Task) (first : Option ℕ) (t : Scheduler) : Type 0 where
  table : t.task_table ≡ put x (set_state ready) links
  head : t.ready_queue_head ≡ first
  tail : t.ready_queue_tail ≡ some x

add_first :
    (x : ℕ) (s : Scheduler)
    → s.ready_queue_head ≡ none
    → Added x
        (put x (set_prev none) (put x (set_next none) s.task_table))
        (some x)
        (add_to_ready_queue (some x) s)
unfolding add_to_ready_queue
add_first x s e = rw e (record { table = refl; head = refl; tail = refl })

add_behind :
    (x : ℕ) (s : Scheduler) {y l : ℕ}
    → s.ready_queue_head ≡ some y
    → s.ready_queue_tail ≡ some l
    → Added x
        (put x (set_prev (some l)) (put l (set_next (some x)) (put x (set_next none) s.task_table)))
        (some y)
        (add_to_ready_queue (some x) s)
unfolding add_to_ready_queue
add_behind x s e f = rw (e, f) (record { table = refl; head = refl; tail = refl })

-- the links after a task has been put behind the last one
linked_last :
    {table : ℕ → Task} {head : Option ℕ} (x y : ℕ) (ys : List ℕ) {l : ℕ}
    → Distinct (y ∷ ys)
    → Out x (y ∷ ys)
    → Chain table (some l) none none head (y ∷ ys)
    → Chain
        (put x (set_prev (some l)) (put l (set_next (some x)) (put x (set_next none) table)))
        (some x)
        none
        none
        head
        ((y ∷ ys) ++ x ∷ [])
linked_last {table} x y ys {l} d out c =
    let cleared = put x (set_next none) table in
    let led = put l (set_next (some x)) cleared in
    let before = Chain-set_next y ys (some x) d (Chain-put (y ∷ ys) x (set_next none) out c) in
    let apart = last_in y ys x out c in
    Chain-append (y ∷ ys) (x ∷ []) (Chain-put (y ∷ ys) x (set_prev (some l)) out before) (
      cons refl (prev-set_prev x (some l) led) (
        nil
          (next-set_prev x (some l) led x
            ∙ next-put_other l x (set_next (some x)) cleared (λ e. apart (sym e))
            ∙ next-set_next x none table)
          refl))

-- the links of a task alone
linked_alone :
    (x : ℕ) (table : ℕ → Task)
    → Chain
        (put x (set_prev none) (put x (set_next none) table))
        (some x)
        none
        none
        (some x)
        (x ∷ [])
linked_alone x table =
    cons refl (prev-set_prev x none (put x (set_next none) table))
      (nil (next-set_prev x none (put x (set_next none) table) x ∙ next-set_next x none table) refl)

same_links :
    {table : ℕ → Task} {head : Option ℕ} {t : Scheduler} {xs : List ℕ} {x : ℕ}
    → Added x table head t
    → Chain table (some x) none none head xs
    → Chain t.task_table t.ready_queue_tail none none t.ready_queue_head xs
same_links {table} {xs = xs} {x = x} a c = Chain-eq a.table a.tail a.head (
    Chain-same xs (next-put_keep x (set_state ready) table (λ t. refl))
      (prev-put_keep x (set_state ready) table (λ t. refl)) c)

Out-Distinct : (x : ℕ) (xs : List ℕ) → Out x xs → Distinct xs → Distinct (xs ++ x ∷ [])
Out-Distinct x [] o d = (tt, tt)
Out-Distinct x (y ∷ ys) (ne, o) (o', d) =
    (Out-append y ys (x ∷ []) o' ((λ e. ne (sym e)), tt), Out-Distinct x ys o d)

-- `add_to_ready_queue` puts a task that is not in the queue behind its last task.
pub add_to_ready_queue-IsQueue :
    {s : Scheduler} (x : ℕ) (xs : List ℕ)
    → IsQueue s xs
    → Out x xs
    → IsQueue (add_to_ready_queue (some x) s) (xs ++ x ∷ [])
add_to_ready_queue-IsQueue {s} x [] q out = record {
  chain = same_links (add_first x s (head_none q.chain)) (linked_alone x s.task_table);
  distinct = (tt, tt);
}
add_to_ready_queue-IsQueue {s} x (y ∷ ys) q out =
    let (l, e) = last_some y ys q.chain in
    let c =
      subst (λ (o : Option ℕ). Chain s.task_table o none none s.ready_queue_head (y ∷ ys)) e
        q.chain in
    record {
      chain =
          same_links (add_behind x s (head_some q.chain) e)
            (Chain-moved _ (sym (head_some q.chain)) refl (linked_last x y ys q.distinct out c));
      distinct = Out-Distinct x (y ∷ ys) out q.distinct;
    }
