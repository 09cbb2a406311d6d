-- ===== src/Scheduler/Blocked.antt =====
-- The blocked queue: a chain of tasks by their `next` pointers alone.
use kronosos.Base.{
  ℕ, zero, suc, ◌+◌, ◌≤◌, ◌<◌, ◌≡◌, ◌≢◌, ◌∙◌, refl, sym, ap, true, false, Option, none, some, List,
  [], ◌∷◌, ◌++◌, length, ◌==◌, if_yes, if_no, arith,
}
use mathlib.Core.Path.{subst}
use kronosos.Scheduler.{
  blocked, Task, Scheduler, modify, set_next, set_state, task_max_count, skip, unlink_blocked,
  add_to_blocked_queue, remove_from_blocked_queue,
}
use kronosos.Scheduler.Apart.{Out, Distinct, Out-front, Distinct-drop, Out-around}
use kronosos.Scheduler.Chain.{put, next-put_other, next-set_next, next-put_keep}

-- From `head` on, the `next` pointers lead through the tasks `xs` to NULL.
pub data Line (table : ℕ → Task) : Option ℕ → List ℕ → Type 0 where
  end : {head : Option ℕ} → head ≡ none → Line table head []
  link :
      {head : Option ℕ} {x : ℕ} {xs : List ℕ}
      → head ≡ some x
      → Line table (table x).next xs
      → Line table head (x ∷ xs)

Line-moved :
    {table : ℕ → Task} {head head' : Option ℕ} (xs : List ℕ)
    → head ≡ head'
    → Line table head' xs
    → Line table head xs
Line-moved [] e (end at) = end (e ∙ at)
Line-moved (x ∷ xs) e (link at rest) = link (e ∙ at) rest

-- A task that is not in it may change, and so may all that is not a link.
Line-put :
    {table : ℕ → Task} {head : Option ℕ} (xs : List ℕ) (x : ℕ) (f : Task → Task)
    → Out x xs
    → Line table head xs
    → Line (put x f table) head xs
Line-put [] x f out (end at) = end at
Line-put {table} (y ∷ ys) x f (ne, out) (link at rest) =
    link at (Line-moved ys (next-put_other x y f table ne) (Line-put ys x f out rest))

-- the last task before, or NULL
abbrev last_of : Option ℕ → List ℕ → Option ℕ
last_of p [] = p
last_of p (y ∷ ys) = last_of (some y) ys

-- The loop finds a task that is in the queue.
unlink_blocked-eq :
    (n x : ℕ) (s : Scheduler) (ys zs : List ℕ) (prev : Option ℕ) {current : Option ℕ}
    → Line s.task_table current (ys ++ x ∷ zs)
    → Out x ys
    → length ys < n
    → unlink_blocked n x prev current s
      ≡ modify x (set_next none) (skip (last_of prev ys) (s.task_table x).next s)
unfolding unlink_blocked
unlink_blocked-eq zero x s ys zs prev l out h = absurd (omega arith)
unlink_blocked-eq (suc n) x s [] zs prev (link at rest) out h =
    ap (λ (o : Option ℕ). unlink_blocked (suc n) x prev o s) at ∙ if_yes _ _ here
  where
    here : (x == x) ≡ true
    here = ground arith
unlink_blocked-eq (suc n) x s (y ∷ ys) zs prev (link at rest) (ne, out) h =
    ap (λ (o : Option ℕ). unlink_blocked (suc n) x prev o s) at
    ∙ if_no _ _ other
    ∙ unlink_blocked-eq n x s ys zs (some y) rest out (omega arith)
  where
    other : (y == x) ≡ false
    other = ground arith

-- the last of the tasks `y` and `ys`
abbrev last : ℕ → List ℕ → ℕ
last y [] = y
last y (z ∷ zs) = last z zs

last_of-some : (y : ℕ) (ys : List ℕ) → last_of (some y) ys ≡ some (last y ys)
last_of-some y [] = refl
last_of-some y (z ∷ zs) = last_of-some z zs

last-Out : (y z : ℕ) (zs : List ℕ) → Out y (z ∷ zs) → y ≢ last z zs
last-Out y z [] (ne, _) = ne
last-Out y z (w ∷ ws) (ne, out) = last-Out y w ws out

-- The task before is led to the task after.
Line-led :
    {table : ℕ → Task} {head : Option ℕ} (y : ℕ) (ys : List ℕ) (x : ℕ) (zs : List ℕ)
    → Distinct (y ∷ ys ++ x ∷ zs)
    → Line table head (y ∷ ys ++ x ∷ zs)
    → Line (put (last y ys) (set_next (table x).next) table) head (y ∷ ys ++ zs)
Line-led {table} y [] x zs ((_, out), d) (link at (link at' rest)) = link at (
    Line-moved zs (next-set_next y (table x).next table)
      (Line-put zs y (set_next (table x).next) out rest))
Line-led {table} y (z ∷ zs') x zs (out, d) (link at rest) =
    let apart = last-Out y z zs' (Out-front y (z ∷ zs') (x ∷ zs) out) in
    link at (
      Line-moved _
        (next-put_other (last z zs') y (set_next (table x).next) table (λ e. apart (sym e)))
        (Line-led z zs' x zs d rest))

Line-back :
    {table : ℕ → Task} {head : Option ℕ} (x : ℕ) (zs : List ℕ)
    → Line table head (x ∷ zs)
    → Line table (table x).next zs
Line-back x zs (link at rest) = rest

-- The blocked queue stands for the tasks `xs`, last to first.
pub record IsBlocked (s : Scheduler) (xs : List ℕ) : Type 0 where
  pub line : Line s.task_table s.blocked_queue_head xs
  pub distinct : Distinct xs

skip-Line :
    (ys : List ℕ) {s : Scheduler} (x : ℕ) (zs : List ℕ)
    → IsBlocked s (ys ++ x ∷ zs)
    → Line
        (skip (last_of none ys) (s.task_table x).next s).task_table
        (skip (last_of none ys) (s.task_table x).next s).blocked_queue_head
        (ys ++ zs)
unfolding skip
skip-Line [] x zs b = Line-back x zs b.line
skip-Line (y ∷ ys) {s} x zs b =
    subst
      (λ (p : Option ℕ).
        Line (skip p (s.task_table x).next s).task_table
          (skip p (s.task_table x).next s).blocked_queue_head (y ∷ ys ++ zs))
      (sym (last_of-some y ys)) (Line-led y ys x zs b.distinct b.line)

-- `remove_from_blocked_queue` takes a task out of the blocked queue, wherever it stands behind at
-- most 256 others, and leaves the others in their order.
pub remove_from_blocked_queue-IsBlocked :
    {s : Scheduler} (x : ℕ) (ys zs : List ℕ)
    → IsBlocked s (ys ++ x ∷ zs)
    → length ys ≤ task_max_count
    → IsBlocked (remove_from_blocked_queue (some x) s) (ys ++ zs)
unfolding remove_from_blocked_queue
remove_from_blocked_queue-IsBlocked {s} x ys zs b h =
    let out = Out-around ys x zs b.distinct in
    subst (λ (t : Scheduler). IsBlocked t (ys ++ zs))
      (sym (
        unlink_blocked-eq (task_max_count + 1) x s ys zs none b.line (Out-front x ys zs out)
          (omega arith)))
      (record {
        line = Line-put (ys ++ zs) x (set_next none) out (skip-Line ys x zs b);
        distinct = Distinct-drop ys x zs b.distinct;
      })

-- `add_to_blocked_queue` puts a task in front, and `remove_from_blocked_queue` of it undoes this.
pub add_to_blocked_queue-IsBlocked :
    {s : Scheduler} (x : ℕ) (xs : List ℕ)
    → IsBlocked s xs
    → Out x xs
    → IsBlocked (add_to_blocked_queue (some x) s) (x ∷ xs)
      × IsBlocked (remove_from_blocked_queue (some x) (add_to_blocked_queue (some x) s)) xs
unfolding add_to_blocked_queue
add_to_blocked_queue-IsBlocked {s} x xs b out =
    (added, remove_from_blocked_queue-IsBlocked x [] xs added (omega arith))
  where
    led : ℕ → Task
    led = put x (set_next s.blocked_queue_head) s.task_table

    next : (put x (set_state blocked) led x).next ≡ s.blocked_queue_head
    next =
        next-put_keep x (set_state blocked) led (λ t. refl) x
        ∙ next-set_next x s.blocked_queue_head s.task_table

    added : IsBlocked (add_to_blocked_queue (some x) s) (x ∷ xs)
    added = record {
      line = link refl (
          Line-moved xs next (
            Line-put xs x (set_state blocked) out
              (Line-put xs x (set_next s.blocked_queue_head) out b.line)));
      distinct = (out, b.distinct);
    }
