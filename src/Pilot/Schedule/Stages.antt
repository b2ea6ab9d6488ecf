-- ===== src/Pilot/Schedule/Stages.antt =====
-- The dictionary of the records by their data sets, and the stages that are built from it:
-- `build_staged_schedule` of experiments/pilot_planning.py.
use schema_guard.Base.{
  ℕ, Bool, true, false, if◌then◌else◌, eqb, Option, none, some, is_some, List, [], ◌∷◌, ◌++◌, map,
  ok, ◌>>=◌, found, ◌≡◌, refl, sym, ap, ◌∙◌, arith, Bool-cases, inl, inr, >>=-eq-ok, ok-injective,
  some-injective, All, All-map,
}
use schema_guard.Base.Counting.{member}
use schema_guard.Pilot.Condition.{PlannedCondition}
use schema_guard.Pilot.Schedule.{get_at, each_of, Buckets, append_at, fill, empty_buckets}

-- The records of a data set, in their order.
unfoldable pub of_dataset : ℕ → List PlannedCondition → List PlannedCondition
of_dataset k [] = []
of_dataset k (c ∷ cs) = let rest = of_dataset k cs in if eqb c.dataset_id k then c ∷ rest else rest

extend {ℓ} : {A : Type ℓ} → List A → Option (List A) → Option (List A)
extend ys none = none
extend ys (some xs) = some (xs ++ ys)

++_assoc {ℓ} : {A : Type ℓ} (xs ys zs : List A) → (xs ++ ys) ++ zs ≡ xs ++ (ys ++ zs)
++_assoc [] ys zs = refl
++_assoc (x ∷ xs) ys zs = ap (◌∷◌ x) (++_assoc xs ys zs)

pub ++-nil {ℓ} : {A : Type ℓ} (xs : List A) → xs ++ [] ≡ xs
++-nil [] = refl
++-nil (x ∷ xs) = ap (◌∷◌ x) (++-nil xs)

extend-extend {ℓ} :
    {A : Type ℓ} (xs ys : List A) (o : Option (List A))
    → extend ys (extend xs o) ≡ extend (xs ++ ys) o
unfolding extend
extend-extend xs ys none = refl
extend-extend xs ys (some zs) = ap some (++_assoc zs xs ys)

extend-nil {ℓ} : {A : Type ℓ} (o : Option (List A)) → extend [] o ≡ o
unfolding extend
extend-nil none = refl
extend-nil (some xs) = ap some (++-nil xs)

if-append {ℓ} :
    {A : Type ℓ} (b : Bool) (x : A) (xs : List A)
    → (if b then x ∷ [] else []) ++ xs ≡ (if b then x ∷ xs else xs)
if-append true x xs = refl
if-append false x xs = refl

get-append_at :
    (k : ℕ) (c : PlannedCondition) (d : Buckets) {e : Buckets}
    → append_at k c d ≡ ok e
    → (j : ℕ) → get_at j e ≡ extend (if eqb k j then c ∷ [] else []) (get_at j d)
unfolding append_at get_at extend
get-append_at k c [] h j = cc
get-append_at k c ((i, cs) ∷ d) {e = e} h j = elim (Bool-cases (eqb i k)) [
  | inl here ↦
      let e1 = ok-injective (rw here at h) in
      rw (sym e1) (ground (arith, here, extend-nil (get_at j d)))
  | inr there ↦
      let (e1, p, q) = >>=-eq-ok (append_at k c d) (λ f. ok ((i, cs) ∷ f)) (rw there at h) in
      rw (sym (ok-injective q)) (ground (arith, there, get-append_at k c d p j, ++-nil cs))
]

fill-get :
    (cs : List PlannedCondition) (d : Buckets) {e : Buckets}
    → fill cs d ≡ ok e
    → (j : ℕ) → get_at j e ≡ extend (of_dataset j cs) (get_at j d)
unfolding fill of_dataset
fill-get [] d h j = rw (sym (ok-injective h), extend-nil (get_at j d)) refl
fill-get (c ∷ cs) d {e = e} h j =
    let (d1, p, q) = >>=-eq-ok (append_at c.dataset_id c d) (fill cs) h in
    fill-get cs d1 q j
    ∙ ap (extend (of_dataset j cs)) (get-append_at c.dataset_id c d p j)
    ∙ extend-extend (if eqb c.dataset_id j then c ∷ [] else []) (of_dataset j cs) (get_at j d)
    ∙ ap (λ ys. extend ys (get_at j d)) (if-append (eqb c.dataset_id j) c (of_dataset j cs))

get-empty_buckets :
    (k : ℕ) (ks : List ℕ)
    → get_at k (empty_buckets ks) ≡ (if member eqb k ks then some [] else none)
unfolding get_at member
get-empty_buckets k [] = refl
get-empty_buckets k (j ∷ js) = ground (arith, get-empty_buckets k js)

is_some-extend {ℓ} :
    {A : Type ℓ} (xs : List A) (o : Option (List A)) → is_some (extend xs o) ≡ is_some o
unfolding extend
is_some-extend xs none = refl
is_some-extend xs (some ys) = refl

append_at-found :
    (k : ℕ) (c : PlannedCondition) (d : Buckets) {e : Buckets}
    → append_at k c d ≡ ok e
    → is_some (get_at k d) ≡ true
unfolding append_at get_at
append_at-found k c [] h = cc
append_at-found k c ((i, cs) ∷ d) h = elim (Bool-cases (eqb i k)) [
  | inl here ↦ rw here refl
  | inr there ↦
      let (e1, p, q) = >>=-eq-ok (append_at k c d) (λ f. ok ((i, cs) ∷ f)) (rw there at h) in
      rw there (append_at-found k c d p)
]

fill-found :
    (cs : List PlannedCondition) (d : Buckets) {e : Buckets}
    → fill cs d ≡ ok e
    → All (λ c. is_some (get_at c.dataset_id d) ≡ true) cs
unfolding fill
fill-found [] d h = tt
fill-found (c ∷ cs) d h =
    let (d1, p, q) = >>=-eq-ok (append_at c.dataset_id c d) (fill cs) h in
    (
      append_at-found c.dataset_id c d p,
      All-map (λ b. is_some (get_at b.dataset_id d1) ≡ true)
          (λ b. is_some (get_at b.dataset_id d) ≡ true)
          (λ b found.
            sym (is_some-extend _ (get_at b.dataset_id d))
            ∙ ap is_some (sym (get-append_at c.dataset_id c d p b.dataset_id))
            ∙ found)
          cs (fill-found cs d1 q),
    )

-- Every record is one of a data set of the dictionary.
pub fill-member :
    (cs : List PlannedCondition) (ks : List ℕ) {e : Buckets}
    → fill cs (empty_buckets ks) ≡ ok e
    → All (λ c. member eqb c.dataset_id ks ≡ true) cs
fill-member cs ks h =
    All-map (λ c. is_some (get_at c.dataset_id (empty_buckets ks)) ≡ true)
      (λ c. member eqb c.dataset_id ks ≡ true)
      (λ c found. ground (arith, found, get-empty_buckets c.dataset_id ks)) cs
      (fill-found cs (empty_buckets ks) h)

filled-get :
    (cs : List PlannedCondition) (ks : List ℕ) {e : Buckets}
    → fill cs (empty_buckets ks) ≡ ok e
    → (k : ℕ) {xs : List PlannedCondition} → get_at k e ≡ some xs
    → xs ≡ of_dataset k cs
unfolding extend
filled-get cs ks {e = e} h k {xs = xs} g =
    let held =
      fill-get cs (empty_buckets ks) h k ∙ ap (extend (of_dataset k cs)) (get-empty_buckets k ks) in
    elim (Bool-cases (member eqb k ks)) [
      | inl is_key ↦ some-injective (sym g ∙ (rw is_key at held))
      | inr no_key ↦ let missing : get_at k e ≡ none = rw no_key at held in cc
    ]

found-eq-ok {ℓ} : {A : Type ℓ} (o : Option A) {a : A} → found o ≡ ok a → o ≡ some a
found-eq-ok none h = cc
found-eq-ok (some b) h = ap some (ok-injective h)

-- The lists that a stage takes out of the dictionary are the records of its data sets.
pub each_of-filled :
    (cs : List PlannedCondition) (ks : List ℕ) {e : Buckets}
    → fill cs (empty_buckets ks) ≡ ok e
    → (group : List ℕ) {lists : List (List PlannedCondition)} → each_of e group ≡ ok lists
    → lists ≡ map (λ k. of_dataset k cs) group
unfolding each_of
each_of-filled cs ks h [] g = sym (ok-injective g)
each_of-filled cs ks {e = e} h (k ∷ group) g =
    let (xs, p, q) =
      >>=-eq-ok (found (get_at k e)) (λ v. each_of e group >>= (λ vs. ok (v ∷ vs))) g in
    let (xss, r, s) = >>=-eq-ok (each_of e group) (λ vs. ok (xs ∷ vs)) q in
    let first = filled-get cs ks h k (found-eq-ok (get_at k e) p) in
    let rest = each_of-filled cs ks h group r in
    sym (ok-injective s) ∙ ap (λ v. v ∷ xss) first ∙ ap (◌∷◌ (of_dataset k cs)) rest
