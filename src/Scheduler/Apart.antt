-- ===== src/Scheduler/Apart.antt =====
-- Lists of tasks without repetition.
use kronosos.Base.{ℕ, ◌≢◌, sym, List, [], ◌∷◌, ◌++◌}

-- No task of the list is `x`; no task occurs twice.
abbrev pub Out : ℕ → List ℕ → Type 0
Out x [] = Unit
Out x (y ∷ ys) = (x ≢ y) × Out x ys

abbrev pub Distinct : List ℕ → Type 0
Distinct [] = Unit
Distinct (x ∷ xs) = Out x xs × Distinct xs

pub Out-append : (x : ℕ) (xs ys : List ℕ) → Out x xs → Out x ys → Out x (xs ++ ys)
Out-append x [] ys a b = b
Out-append x (y ∷ xs) ys (ne, a) b = (ne, Out-append x xs ys a b)

pub Out-front : (x : ℕ) (xs ys : List ℕ) → Out x (xs ++ ys) → Out x xs
Out-front x [] ys o = tt
Out-front x (y ∷ xs) ys (ne, o) = (ne, Out-front x xs ys o)

pub Out-back : (x : ℕ) (xs ys : List ℕ) → Out x (xs ++ ys) → Out x ys
Out-back x [] ys o = o
Out-back x (y ∷ xs) ys (ne, o) = Out-back x xs ys o

pub Distinct-front : (ys zs : List ℕ) → Distinct (ys ++ zs) → Distinct ys
Distinct-front [] zs d = tt
Distinct-front (y ∷ ys) zs (o, d) = (Out-front y ys zs o, Distinct-front ys zs d)

pub Distinct-drop :
    (ys : List ℕ) (x : ℕ) (zs : List ℕ) → Distinct (ys ++ x ∷ zs) → Distinct (ys ++ zs)
Distinct-drop [] x zs (o, d) = d
Distinct-drop (y ∷ ys) x zs (o, d) = (
  Out-append y ys zs (Out-front y ys (x ∷ zs) o) (Out-back y ys (x ∷ zs) o).1,
  Distinct-drop ys x zs d,
)

-- A task of such a list is in neither part around it.
pub Out-before : (ys : List ℕ) (x : ℕ) (zs : List ℕ) → Distinct (ys ++ x ∷ zs) → Out x ys
Out-before [] x zs d = tt
Out-before (y ∷ ys) x zs (o, d) =
    ((λ e. (Out-back y ys (x ∷ zs) o).0 (sym e)), Out-before ys x zs d)

pub Out-behind : (ys : List ℕ) (x : ℕ) (zs : List ℕ) → Distinct (ys ++ x ∷ zs) → Out x zs
Out-behind [] x zs (o, d) = o
Out-behind (y ∷ ys) x zs (o, d) = Out-behind ys x zs d

pub Out-around : (ys : List ℕ) (x : ℕ) (zs : List ℕ) → Distinct (ys ++ x ∷ zs) → Out x (ys ++ zs)
Out-around ys x zs d = Out-append x ys zs (Out-before ys x zs d) (Out-behind ys x zs d)
