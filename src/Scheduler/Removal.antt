-- ===== src/Scheduler/Removal.antt =====
-- Taking tasks out of the ready queue.
use kronosos.Base.{
  ℕ, ◌≡◌, ◌≢◌, ◌∙◌, refl, sym, ap, true, false, Option, none, some, List, [], ◌∷◌, ◌++◌, if_yes,
  if_no, arith,
}
use mathlib.Core.Path.{subst}
use mathlib.Core.List.{append-nil}
use kronosos.Scheduler.{
  Task, Scheduler, modify, set_next, set_prev, same_task, set_tail, bridge, remove_from_ready_queue,
  take_head,
}
use kronosos.Scheduler.Apart.{
  Out, Distinct, Distinct-front, Distinct-drop, Out-before, Out-behind, Out-around,
}
use kronosos.Scheduler.Chain.{
  Chain, nil, cons, put, Chain-put, Chain-set_next, Chain-set_prev, Chain-append, Cut, Chain-Cut,
  Chain-moved, Chain-eq, last_in,
}
use kronosos.Scheduler.Ready.{IsQueue, last_some, head_some}

-- the last task of the front is not in the back
last-Out :
    {table : ℕ → Task} {prev head after : Option ℕ} {l : ℕ} (y : ℕ) (ys zs : List ℕ)
    → Chain table (some l) after prev head (y ∷ ys)
    → Distinct ((y ∷ ys) ++ zs)
    → Out l zs
last-Out {l = l} y [] zs (cons at back (nil end same)) (o, d) =
    let here : y ≡ l = ground arith in subst (λ (a : ℕ). Out a zs) here o
last-Out y (w ∷ ws) zs (cons at back rest) (o, d) = last-Out w ws zs rest d

-- the queue without its first task
module _ (s : Scheduler) (x : ℕ) where
  taken_last : (s.task_table x).next ≡ none → IsQueue (take_head x s) []
  unfolding take_head
  taken_last e = rw e (record { chain = nil refl refl; distinct = tt })

  taken_links :
      (z : ℕ)
      → (s.task_table x).next ≡ some z
      → ((take_head x s).task_table
          ≡ put x (set_prev none) (put x (set_next none) (put z (set_prev none) s.task_table)))
        × ((take_head x s).ready_queue_head ≡ some z)
        × ((take_head x s).ready_queue_tail ≡ s.ready_queue_tail)
  unfolding take_head
  taken_links z e = rw e (refl, refl, refl)

-- The first task is taken out of the queue.
pub take_head-IsQueue :
    {s : Scheduler} (x : ℕ) (xs : List ℕ) → IsQueue s (x ∷ xs) → IsQueue (take_head x s) xs
take_head-IsQueue {s} x [] q = taken_last s x (alone q.chain)
  where
    alone :
        {last prev head : Option ℕ}
        → Chain s.task_table last none prev head (x ∷ [])
        → (s.task_table x).next ≡ none
    alone (cons at back (nil end same)) = end
take_head-IsQueue {s} x (z ∷ zs) q =
    let (out, d) = q.distinct in
    let rest = tail_chain q.chain in
    let (table, head, tail) = taken_links s x z (head_some rest) in
    record {
      chain = Chain-eq table tail head (
          Chain-put (z ∷ zs) x (set_prev none) out (
            Chain-put (z ∷ zs) x (set_next none) out
              (Chain-set_prev z zs none d.0 (Chain-moved _ (sym (head_some rest)) refl rest))));
      distinct = d;
    }
  where
    tail_chain :
        {last prev head : Option ℕ}
        → Chain s.task_table last none prev head (x ∷ z ∷ zs)
        → Chain s.task_table last none (some x) (s.task_table x).next (z ∷ zs)
    tail_chain (cons at back rest) = rest

-- The three ways of `remove_from_ready_queue`, which then clears the links of the task.
module _ (s : Scheduler) (x : ℕ) where
  abbrev clear : Scheduler → Scheduler
  clear t = modify x (set_prev none) (modify x (set_next none) t)

  at_head :
      same_task (some x) s.ready_queue_head ≡ true
      → remove_from_ready_queue (some x) s ≡ take_head x s
  unfolding remove_from_ready_queue take_head
  at_head h = ap clear (if_yes _ _ h)

  at_tail :
      same_task (some x) s.ready_queue_head ≡ false
      → same_task (some x) s.ready_queue_tail ≡ true
      → remove_from_ready_queue (some x) s ≡ clear (set_tail (s.task_table x).prev s)
  unfolding remove_from_ready_queue
  at_tail h t = ap clear (if_no _ _ h ∙ if_yes _ _ t)

  inside :
      same_task (some x) s.ready_queue_head ≡ false
      → same_task (some x) s.ready_queue_tail ≡ false
      → remove_from_ready_queue (some x) s
        ≡ clear (bridge (s.task_table x).prev (s.task_table x).next s)
  unfolding remove_from_ready_queue
  inside h t = ap clear (if_no _ _ h ∙ if_no _ _ t)

  cleared-IsQueue : {t : Scheduler} (xs : List ℕ) → Out x xs → IsQueue t xs → IsQueue (clear t) xs
  cleared-IsQueue xs out q = record {
    chain = Chain-put xs x (set_prev none) out (Chain-put xs x (set_next none) out q.chain);
    distinct = q.distinct;
  }

  -- The task stands behind others in the queue.
  record Neighbours (y : ℕ) (ys zs : List ℕ) : Type 0 where
    left : ℕ
    middle : Option ℕ
    before : Chain s.task_table (some left) middle none s.ready_queue_head (y ∷ ys)
    back_to : (s.task_table x).prev ≡ some left
    rest : Chain s.task_table s.ready_queue_tail none (some x) (s.task_table x).next zs

  neighbours : (y : ℕ) (ys zs : List ℕ) → IsQueue s ((y ∷ ys) ++ x ∷ zs) → Neighbours y ys zs
  neighbours y ys zs q = from (Chain-Cut (y ∷ ys) (x ∷ zs) q.chain)
    where
      found :
          {mid mid' : Option ℕ} {l : ℕ}
          → mid ≡ some l
          → Chain s.task_table mid mid' none s.ready_queue_head (y ∷ ys)
          → Chain s.task_table s.ready_queue_tail none mid mid' (x ∷ zs)
          → Neighbours y ys zs
      found {mid' = mid'} {l} e front (cons at back rest) = record {
        left = l;
        middle = mid';
        before =
            subst (λ (m : Option ℕ). Chain s.task_table m mid' none s.ready_queue_head (y ∷ ys)) e
              front;
        back_to = back ∙ e;
        rest = rest;
      }

      from :
          Cut s.task_table none s.ready_queue_head (y ∷ ys) (x ∷ zs) s.ready_queue_tail none
          → Neighbours y ys zs
      from c = found (last_some y ys c.front).1 c.front c.back

  -- the task is the last of several
  tail-IsQueue :
      (y : ℕ) (ys : List ℕ)
      → Neighbours y ys []
      → Distinct (y ∷ ys)
      → IsQueue (set_tail (s.task_table x).prev s) (y ∷ ys)
  unfolding set_tail
  tail-IsQueue y ys n d =
      let e = n.back_to in
      rw e (record { chain = Chain-set_next y ys none d n.before; distinct = d })

  -- the task has others on both sides
  inner-IsQueue :
      (y : ℕ) (ys : List ℕ) (z : ℕ) (zs : List ℕ)
      → Neighbours y ys (z ∷ zs)
      → Distinct ((y ∷ ys) ++ z ∷ zs)
      → IsQueue (bridge (s.task_table x).prev (s.task_table x).next s) ((y ∷ ys) ++ z ∷ zs)
  unfolding bridge
  inner-IsQueue y ys z zs n d =
      let e = n.back_to in
      let f = head_some n.rest in
      let front =
        Chain-put (y ∷ ys) z (set_prev (some n.left)) (Out-before (y ∷ ys) z zs d)
          (Chain-set_next y ys (some z) (Distinct-front (y ∷ ys) (z ∷ zs) d) n.before) in
      let back = Chain-set_prev z zs (some n.left) (Out-behind (y ∷ ys) z zs d) (
        Chain-put (z ∷ zs) n.left (set_next (some z)) (last-Out y ys (z ∷ zs) n.before d)
          (Chain-moved _ (sym f) refl n.rest)) in
      rw (e, f) (record { chain = Chain-append (y ∷ ys) (z ∷ zs) front back; distinct = d })

is_same : {x : ℕ} {p : Option ℕ} → p ≡ some x → same_task (some x) p ≡ true
is_same {x} e = rw e (ground arith)

is_other : {x y : ℕ} {p : Option ℕ} → p ≡ some y → x ≢ y → same_task (some x) p ≡ false
is_other {x} {y} e ne = rw e (ground arith)

-- `remove_from_ready_queue` takes a task out of the queue, wherever it stands, and leaves the
-- others in their order.
pub remove_from_ready_queue-IsQueue :
    {s : Scheduler} (x : ℕ) (ys zs : List ℕ)
    → IsQueue s (ys ++ x ∷ zs)
    → IsQueue (remove_from_ready_queue (some x) s) (ys ++ zs)
remove_from_ready_queue-IsQueue {s} x [] zs q =
    subst (λ (t : Scheduler). IsQueue t zs) (sym (at_head s x (is_same (head_some q.chain))))
      (take_head-IsQueue x zs q)
remove_from_ready_queue-IsQueue {s} x (y ∷ ys) zs q = by_rest zs q (neighbours s x y ys zs q)
  where
    not_first :
        (zs : List ℕ)
        → IsQueue s ((y ∷ ys) ++ x ∷ zs)
        → same_task (some x) s.ready_queue_head ≡ false
    not_first zs q = is_other (head_some q.chain) (Out-before (y ∷ ys) x zs q.distinct).0

    is_tail :
        Chain s.task_table s.ready_queue_tail none (some x) (s.task_table x).next []
        → s.ready_queue_tail ≡ some x
    is_tail (nil end same) = same

    not_tail :
        (z : ℕ) (zs : List ℕ)
        → IsQueue s ((y ∷ ys) ++ x ∷ z ∷ zs)
        → Chain s.task_table s.ready_queue_tail none (some x) (s.task_table x).next (z ∷ zs)
        → same_task (some x) s.ready_queue_tail ≡ false
    not_tail z zs q c =
        let (w, e) = last_some z zs c in
        let named =
          subst
            (λ (o : Option ℕ). Chain s.task_table o none (some x) (s.task_table x).next (z ∷ zs)) e
            c in
        is_other e (last_in z zs x (Out-behind (y ∷ ys) x (z ∷ zs) q.distinct) named)

    by_rest :
        (zs : List ℕ)
        → IsQueue s ((y ∷ ys) ++ x ∷ zs)
        → Neighbours s x y ys zs
        → IsQueue (remove_from_ready_queue (some x) s) ((y ∷ ys) ++ zs)
    by_rest [] q n =
        let d = Distinct-front (y ∷ ys) (x ∷ []) q.distinct in
        let out = Out-before (y ∷ ys) x [] q.distinct in
        subst (IsQueue (remove_from_ready_queue (some x) s)) (sym (append-nil (y ∷ ys))) (
          subst (λ (t : Scheduler). IsQueue t (y ∷ ys))
            (sym (at_tail s x (not_first [] q) (is_same (is_tail n.rest))))
            (cleared-IsQueue s x (y ∷ ys) out (tail-IsQueue s x y ys n d)))
    by_rest (z ∷ zs) q n =
        subst (λ (t : Scheduler). IsQueue t ((y ∷ ys) ++ z ∷ zs))
          (sym (inside s x (not_first (z ∷ zs) q) (not_tail z zs q n.rest)))
          (cleared-IsQueue s x ((y ∷ ys) ++ z ∷ zs) (Out-around (y ∷ ys) x (z ∷ zs) q.distinct)
            (inner-IsQueue s x y ys z zs n (Distinct-drop (y ∷ ys) x (z ∷ zs) q.distinct)))
