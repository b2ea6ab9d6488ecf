-- ===== src/Runner/Scheduler/Returns.antt =====
-- runner/scheduler.py: what a computation on the state file, the cache and the index establishes when
-- it returns.
use schema_guard.Base.{
  ◌≡◌, refl, subst, Bool, true, false, if◌then◌else◌, Result, ok, err, ok-injective,
}
use schema_guard.Runner.Scheduler.{World, and_then}

-- If a computation returns, its value and the world behind it satisfy a predicate.
pub record Returns {B X : Type 0} (P : X → World B → Type 0) (m : Result X × World B) : Type 0 where
  pub returned : (x : X) → m.0 ≡ ok x → P x m.1

pub ok-Returns :
    {B X : Type 0} (P : X → World B → Type 0) (x : X) (w : World B) → P x w → Returns P (ok x, w)
ok-Returns P x w p = record { returned = λ y e. subst (λ z. P z w) (ok-injective e) p }

pub and_then-Returns :
    {B A X : Type 0} (P : X → World B → Type 0) (m : Result A × World B)
    (next : A → World B → Result X × World B)
    → ((a : A) → m.0 ≡ ok a → Returns P (next a m.1))
    → Returns P (and_then m next)
and_then-Returns P (ok a, w) next k = k a refl
and_then-Returns P (err e, w) next k = record { returned = λ x r. cc }

pub if-Returns :
    {B X : Type 0} (P : X → World B → Type 0) (test : Bool) (m n : Result X × World B)
    → Returns P m
    → Returns P n
    → Returns P (if test then m else n)
if-Returns P true m n left right = left
if-Returns P false m n left right = right
