-- ===== src/Scheduler/Chain.antt =====
-- Doubly linked chains of tasks in the task table.
use kronosos.Base.{
  ℕ, ◌≡◌, ◌≢◌, ◌∙◌, refl, sym, ap, true, false, Option, some, List, [], ◌∷◌, ◌++◌, ◌==◌,
  if◌then◌else◌, if_yes, if_no, Bool-cases, inl, inr, arith,
}
use mathlib.Core.Path.{subst}
use kronosos.Scheduler.Apart.{Out, Distinct}
use kronosos.Scheduler.{Task, set_next, set_prev}

-- From `head` on, the `next` pointers lead through the tasks `xs` to `after`, and the `prev`
-- pointers lead back to `prev`; `last` is the last of them.
pub data Chain (table : ℕ → Task) (last after : Option ℕ)
    : Option ℕ → Option ℕ → List ℕ → Type 0 where
  nil : {prev head : Option ℕ} → head ≡ after → last ≡ prev → Chain table last after prev head []
  cons :
      {prev head : Option ℕ} {x : ℕ} {xs : List ℕ}
      → head ≡ some x
      → (table x).prev ≡ prev
      → Chain table last after (some x) (table x).next xs
      → Chain table last after prev head (x ∷ xs)

-- the table with the task at `x` changed
abbrev pub put : ℕ → (Task → Task) → (ℕ → Task) → ℕ → Task
put x f table y = if y == x then f (table y) else table y

pub put-other :
    (x : ℕ) (f : Task → Task) (table : ℕ → Task) (y : ℕ) → x ≢ y → put x f table y ≡ table y
put-other x f table y ne = if_no _ _ apart
  where
    apart : (y == x) ≡ false
    apart = ground arith

pub put_self : (x : ℕ) (f : Task → Task) (table : ℕ → Task) → put x f table x ≡ f (table x)
put_self x f table = if_yes _ _ here
  where
    here : (x == x) ≡ true
    here = ground arith

-- the links of a changed task
module _ (x : ℕ) (p : Option ℕ) (table : ℕ → Task) where
  pub prev-set_prev : (put x (set_prev p) table x).prev ≡ p
  prev-set_prev = ap (λ (t : Task). t.prev) (put_self x (set_prev p) table)

  pub next-set_next : (put x (set_next p) table x).next ≡ p
  next-set_next = ap (λ (t : Task). t.next) (put_self x (set_next p) table)

  pub next-set_prev : (y : ℕ) → (put x (set_prev p) table y).next ≡ (table y).next
  next-set_prev y = elim (Bool-cases (y == x)) [
    | inl here ↦ ap (λ (t : Task). t.next) (if_yes _ _ here)
    | inr other ↦ ap (λ (t : Task). t.next) (if_no _ _ other)
  ]

  pub prev-set_next : (y : ℕ) → (put x (set_next p) table y).prev ≡ (table y).prev
  prev-set_next y = elim (Bool-cases (y == x)) [
    | inl here ↦ ap (λ (t : Task). t.prev) (if_yes _ _ here)
    | inr other ↦ ap (λ (t : Task). t.prev) (if_no _ _ other)
  ]

pub next-put_other :
    (x y : ℕ) (f : Task → Task) (table : ℕ → Task) → x ≢ y → (put x f table y).next ≡ (table y).next
next-put_other x y f table ne = ap (λ (t : Task). t.next) (put-other x f table y ne)

pub prev-put_other :
    (x y : ℕ) (f : Task → Task) (table : ℕ → Task) → x ≢ y → (put x f table y).prev ≡ (table y).prev
prev-put_other x y f table ne = ap (λ (t : Task). t.prev) (put-other x f table y ne)

-- A change that leaves the links of a task alone leaves them in the table.
module _ (x : ℕ) (f : Task → Task) (table : ℕ → Task) where
  pub next-put_keep :
      ((t : Task) → (f t).next ≡ t.next) → (y : ℕ) → (put x f table y).next ≡ (table y).next
  next-put_keep keep y = elim (Bool-cases (y == x)) [
    | inl here ↦ ap (λ (t : Task). t.next) (if_yes _ _ here) ∙ keep (table y)
    | inr other ↦ ap (λ (t : Task). t.next) (if_no _ _ other)
  ]

  pub prev-put_keep :
      ((t : Task) → (f t).prev ≡ t.prev) → (y : ℕ) → (put x f table y).prev ≡ (table y).prev
  prev-put_keep keep y = elim (Bool-cases (y == x)) [
    | inl here ↦ ap (λ (t : Task). t.prev) (if_yes _ _ here) ∙ keep (table y)
    | inr other ↦ ap (λ (t : Task). t.prev) (if_no _ _ other)
  ]

-- the same chain, by equations for the table and the ends
pub Chain-eq :
    {table table' : ℕ → Task} {last last' after prev head head' : Option ℕ} {xs : List ℕ}
    → table' ≡ table
    → last' ≡ last
    → head' ≡ head
    → Chain table last after prev head xs
    → Chain table' last' after prev head' xs
Chain-eq {table} {table'} {last} {last'} {after} {prev} {head} {head'} {xs} e f g c =
    subst (λ (u : ℕ → Task). Chain u last' after prev head' xs) (sym e)
      (subst (λ (l : Option ℕ). Chain table l after prev head' xs) (sym f)
        (subst (λ (h : Option ℕ). Chain table last after prev h xs) (sym g) c))

pub Chain-moved :
    {table : ℕ → Task} {last after prev prev' head head' : Option ℕ} (xs : List ℕ)
    → head ≡ head'
    → prev ≡ prev'
    → Chain table last after prev' head' xs
    → Chain table last after prev head xs
Chain-moved [] h p (nil at same) = nil (h ∙ at) (same ∙ sym p)
Chain-moved (x ∷ xs) h p (cons at back rest) = cons (h ∙ at) (back ∙ sym p) rest

-- A chain stands in every table with the same links, and a task that is not in it may change.
pub Chain-same :
    {table table' : ℕ → Task} {prev head : Option ℕ} (xs : List ℕ) {last after : Option ℕ}
    → ((y : ℕ) → (table' y).next ≡ (table y).next)
    → ((y : ℕ) → (table' y).prev ≡ (table y).prev)
    → Chain table last after prev head xs
    → Chain table' last after prev head xs
Chain-same [] next back (nil at same) = nil at same
Chain-same {table} {table'} (x ∷ xs) {last} {after} next back (cons at e rest) =
    cons at (back x ∙ e) (
      subst (λ (h : Option ℕ). Chain table' last after (some x) h xs) (sym (next x))
        (Chain-same xs next back rest))

pub Chain-put :
    {table : ℕ → Task} {prev head : Option ℕ} (xs : List ℕ) {last after : Option ℕ} (x : ℕ)
    (f : Task → Task)
    → Out x xs
    → Chain table last after prev head xs
    → Chain (put x f table) last after prev head xs
Chain-put [] x f out (nil at same) = nil at same
Chain-put {table} (y ∷ ys) {last} {after} x f (ne, out) (cons at back rest) =
    let same = put-other x f table y ne in
    cons at (ap (λ (t : Task). t.prev) same ∙ back) (
      subst (λ (h : Option ℕ). Chain (put x f table) last after (some y) h ys)
        (sym (ap (λ (t : Task). t.next) same)) (Chain-put ys x f out rest))

-- the last task of a chain is in it
pub last_in :
    {table : ℕ → Task} {prev head : Option ℕ} (y : ℕ) (ys : List ℕ) {l : ℕ} {after : Option ℕ}
    (x : ℕ)
    → Out x (y ∷ ys)
    → Chain table (some l) after prev head (y ∷ ys)
    → x ≢ l
last_in y [] x (ne, _) (cons at back (nil end same)) = ground arith
last_in y (z ∷ zs) x (ne, out) (cons at back rest) = last_in z zs x out rest

-- The last task of a chain can be led on to any other.
pub Chain-set_next :
    {table : ℕ → Task} {prev head : Option ℕ} (y : ℕ) (ys : List ℕ) {l : ℕ} {after : Option ℕ}
    (after' : Option ℕ)
    → Distinct (y ∷ ys)
    → Chain table (some l) after prev head (y ∷ ys)
    → Chain (put l (set_next after') table) (some l) after' prev head (y ∷ ys)
Chain-set_next {table} y [] {l} after' d (cons at back (nil end same)) =
    let here : l ≡ y = ground arith in cons at (ground (arith, back)) (nil (ground arith) same)
Chain-set_next {table} y (z ∷ zs) {l} after' (out, d) (cons at back rest) =
    let kept = put-other l (set_next after') table y (λ e. last_in z zs y out rest (sym e)) in
    cons at (ap (λ (t : Task). t.prev) kept ∙ back) (
      subst
        (λ (h : Option ℕ).
          Chain (put l (set_next after') table) (some l) after' (some y) h (z ∷ zs))
        (sym (ap (λ (t : Task). t.next) kept)) (Chain-set_next z zs after' d rest))

-- The first task of a chain can be led back to any other.
pub Chain-set_prev :
    {table : ℕ → Task} {prev head : Option ℕ} (z : ℕ) (zs : List ℕ) {last after : Option ℕ}
    (prev' : Option ℕ)
    → Out z zs
    → Chain table last after prev head (z ∷ zs)
    → Chain (put z (set_prev prev') table) last after prev' head (z ∷ zs)
Chain-set_prev {table} z zs {last} {after} prev' out (cons at back rest) =
    cons at (ap (λ (t : Task). t.prev) (put_self z (set_prev prev') table)) (
      subst (λ (h : Option ℕ). Chain (put z (set_prev prev') table) last after (some z) h zs)
        (sym (ap (λ (t : Task). t.next) (put_self z (set_prev prev') table)))
        (Chain-put zs z (set_prev prev') out rest))

pub Chain-append :
    {table : ℕ → Task} {prev head mid mid' : Option ℕ} (xs ys : List ℕ) {last after : Option ℕ}
    → Chain table mid mid' prev head xs
    → Chain table last after mid mid' ys
    → Chain table last after prev head (xs ++ ys)
Chain-append [] ys (nil at same) c = Chain-moved ys at (sym same) c
Chain-append (x ∷ xs) ys (cons at back rest) c = cons at back (Chain-append xs ys rest c)

-- A chain through two lists is cut between them.
pub record Cut (table : ℕ → Task) (prev head : Option ℕ) (xs ys : List ℕ) (last after : Option ℕ)
    : Type 0 where
  pub mid : Option ℕ
  pub mid' : Option ℕ
  pub front : Chain table mid mid' prev head xs
  pub back : Chain table last after mid mid' ys

pub Chain-Cut :
    {table : ℕ → Task} {prev head : Option ℕ} (xs ys : List ℕ) {last after : Option ℕ}
    → Chain table last after prev head (xs ++ ys)
    → Cut table prev head xs ys last after
Chain-Cut [] ys c = record { mid = _; mid' = _; front = nil refl refl; back = c }
Chain-Cut (x ∷ xs) ys (cons at back rest) =
    let c = Chain-Cut xs ys rest in
    record { mid = c.mid; mid' = c.mid'; front = cons at back c.front; back = c.back }
