-- ===== src/Pilot/Inventory/Coverage.antt =====
-- How many conditions an accepted inventory has at least: `validate_counts` of
-- experiments/pilot_contracts.py.
use native.Mathlib.Nat.{suc-mul}
use schema_guard.Base.{
  ℕ, suc, ◌+◌, ◌*◌, ◌≤◌, true, false, ◌&&◌, ◌||◌, if◌then◌else◌, all, All, all→All, All-map, List,
  [], ◌∷◌, map, length, String, ◌==◌, ◌≡◌, refl, sym, ap, subst, arith, eq_iff, eq_refl,
  and-eq-true, Bool-cases, inl, inr,
}
use schema_guard.Base.Dict.{contains}
use schema_guard.Base.Counting.{member, distinct_count}
use schema_guard.Hashing.{Digest}
use schema_guard.Pilot.Select.{model_order}
use schema_guard.Pilot.Condition.{PlannedCondition}
use schema_guard.Pilot.Inventory.{
  PilotConditionInventory, ViewKey, same_key, view_key, has_condition, has_models, count_where,
  texts_differ, inventory_is_valid,
}

same_key-eq : (j k : ViewKey) → same_key j k ≡ true → j ≡ k
same_key-eq (a, b, s) (c, d, t) h =
    let first : a ≡ c = ground (arith, h) in
    let second : b ≡ d = ground (arith, h) in
    let third : s ≡ t = ground (arith, h, eq_iff s t) in rw (first, second, third) refl

same_key_refl : (k : ViewKey) → same_key k k ≡ true
same_key_refl (a, b, s) = ground (arith, eq_refl s)

same_key_sym : (j k : ViewKey) → same_key j k ≡ same_key k j
same_key_sym (a, b, s) (c, d, t) = ground (arith, eq_iff s t, eq_iff t s)

-- The keys that differ from a key.
without : ViewKey → List ViewKey → List ViewKey
without j [] = []
without j (k ∷ ks) = let rest = without j ks in if same_key j k then rest else k ∷ rest

without-absent :
    (j : ViewKey) (ks : List ViewKey) → member same_key j ks ≡ false → without j ks ≡ ks
unfolding without member
without-absent j [] h = refl
without-absent j (k ∷ ks) h = elim (Bool-cases (same_key j k)) [
  | inl e ↦ let impossible : true ≡ false = rw (sym (same_key_sym j k), e) at h in cc
  | inr e ↦ rw e (ap (◌∷◌ k) (without-absent j ks (ground (arith, h))))
]

member-without :
    (j k : ViewKey) (ks : List ViewKey)
    → same_key j k ≡ false
    → member same_key k (without j ks) ≡ member same_key k ks
unfolding without member
member-without j k [] h = refl
member-without j k (l ∷ ks) h = elim (Bool-cases (same_key j l)) [
  | inl e ↦
      let other : same_key l k ≡ false = subst (λ i. same_key i k ≡ false) (same_key-eq j l e) h in
      rw (e, other) (member-without j k ks h)
  | inr e ↦ rw e (ap (λ b. same_key l k || b) (member-without j k ks h))
]

distinct_count-without :
    (j : ViewKey) (ks : List ViewKey)
    → distinct_count same_key ks ≤ suc (distinct_count same_key (without j ks))
unfolding without distinct_count
distinct_count-without j [] = omega arith
distinct_count-without j (k ∷ ks) = elim (Bool-cases (same_key j k)) [
  | inl e ↦ rw e (elim (Bool-cases (member same_key k ks)) [
    | inl again ↦ rw again (distinct_count-without j ks)
    | inr once ↦
        let absent : member same_key j ks ≡ false =
          subst (λ i. member same_key i ks ≡ false) (sym (same_key-eq j k e)) once in
        rw (once, without-absent j ks absent) (omega arith)
  ])
  | inr e ↦ rw (e, member-without j k ks e) (ground (arith, distinct_count-without j ks))
]

All-without :
    (m : String) (c : PlannedCondition) (cs : List PlannedCondition) (ks : List ViewKey)
    → All (λ k. has_condition k m (c ∷ cs) ≡ true) ks
    → All (λ k. has_condition k m cs ≡ true) (without (view_key c) ks)
unfolding has_condition without
All-without m c cs [] h = tt
All-without m c cs (k ∷ ks) h = elim (Bool-cases (same_key (view_key c) k)) [
  | inl e ↦ rw e (All-without m c cs ks h.1)
  | inr e ↦ rw e ((rw e at h.0), All-without m c cs ks h.1)
]

other_model :
    (m : String) (c : PlannedCondition) (cs : List PlannedCondition) (k : ViewKey)
    → has_condition k m (c ∷ cs) ≡ true
    → (c.model_id == m) ≡ false
    → has_condition k m cs ≡ true
unfolding has_condition
other_model m c cs k h e = ground (arith, h, e)

-- If every key has a condition of the model, there are at least as many conditions of the model as
-- different keys.
covered :
    (m : String) (cs : List PlannedCondition) (ks : List ViewKey)
    → All (λ k. has_condition k m cs ≡ true) ks
    → distinct_count same_key ks ≤ count_where (λ c. c.model_id == m) cs
unfolding has_condition count_where distinct_count
covered m [] [] h = omega arith
covered m [] (k ∷ ks) h = cc
covered m (c ∷ cs) ks h = elim (Bool-cases (c.model_id == m)) [
  | inl e ↦
      let rest = covered m cs (without (view_key c) ks) (All-without m c cs ks h) in
      rw e (omega (arith, rest, distinct_count-without (view_key c) ks))
  | inr e ↦ rw e (
      covered m cs ks (
        All-map (λ k. has_condition k m (c ∷ cs) ≡ true) (λ k. has_condition k m cs ≡ true)
          (λ k there. other_model m c cs k there e) ks h))
]

-- How many of the models a condition counts for.
matches : String → List String → ℕ
matches t = count_where (λ m. t == m)

counts : List String → List PlannedCondition → ℕ
counts [] cs = 0
counts (m ∷ ms) cs = count_where (λ c. c.model_id == m) cs + counts ms cs

counts-cons :
    (ms : List String) (c : PlannedCondition) (cs : List PlannedCondition)
    → counts ms (c ∷ cs) ≡ counts ms cs + matches c.model_id ms
unfolding counts count_where matches
counts-cons [] c cs = omega arith
counts-cons (m ∷ ms) c cs = ground (arith, counts-cons ms c cs)

matches-absent : (t : String) (ms : List String) → contains t ms ≡ false → matches t ms ≡ 0
unfolding matches count_where contains
matches-absent t [] h = refl
matches-absent t (m ∷ ms) h =
    ground (arith, h, eq_iff t m, eq_iff m t, matches-absent t ms (ground (arith, h)))

matches_once : (t : String) (ms : List String) → texts_differ ms ≡ true → matches t ms ≤ 1
unfolding matches count_where texts_differ
matches_once t [] h = omega arith
matches_once t (m ∷ ms) h = elim (Bool-cases (t == m)) [
  | inl e ↦
      let same : t ≡ m = ground (arith, e, eq_iff t m) in
      let absent : contains t ms ≡ false = rw same (ground (arith, h)) in
      rw (e, matches-absent t ms absent) (omega arith)
  | inr e ↦ rw e (matches_once t ms (ground (arith, h)))
]

counts-nil : (ms : List String) → counts ms [] ≡ 0
unfolding counts count_where
counts-nil [] = refl
counts-nil (m ∷ ms) = omega (arith, counts-nil ms)

counts_within :
    (ms : List String) (cs : List PlannedCondition)
    → texts_differ ms ≡ true
    → counts ms cs ≤ length cs
counts_within ms [] h = omega (arith, counts-nil ms)
counts_within ms (c ∷ cs) h =
    omega (arith, counts-cons ms c cs, matches_once c.model_id ms h, counts_within ms cs h)

counts_reach :
    (ms : List String) (cs : List PlannedCondition) (ks : List ViewKey)
    → All (λ k. all (λ m. has_condition k m cs) ms ≡ true) ks
    → length ms * distinct_count same_key ks ≤ counts ms cs
unfolding counts
counts_reach [] cs ks h = omega arith
counts_reach (m ∷ ms) cs ks h =
    let first =
      covered m cs ks
        (All-map _ _ (λ k both. (and-eq-true (has_condition k m cs) _ both).0) ks h) in
    let rest =
      counts_reach ms cs ks
        (All-map _ _ (λ k both. (and-eq-true (has_condition k m cs) _ both).1) ks h) in
    rw (suc-mul (length ms) (distinct_count same_key ks)) (omega (arith, first, rest))

All-view_key :
    (P : ViewKey → Type 0) (cs : List PlannedCondition)
    → All (λ c. P (view_key c)) cs
    → All P (map view_key cs)
All-view_key P [] h = tt
All-view_key P (c ∷ cs) h = (h.0, All-view_key P cs h.1)

models_of_key :
    (i : PilotConditionInventory) (c : PlannedCondition)
    → (contains c.model_id model_order && has_models i.records (view_key c)) ≡ true
    → has_models i.records (view_key c) ≡ true
models_of_key i c h = elim (Bool-cases (contains c.model_id model_order)) [
  | inl e ↦ (rw e at h)
  | inr e ↦ let impossible : false ≡ true = rw e at h in cc
]

models_differ : texts_differ model_order ≡ true
unfolding texts_differ contains
models_differ = refl

module _ (h : Digest) (i : PilotConditionInventory) (valid : inventory_is_valid h i ≡ true) where
  length_lem : length i.records ≡ i.actual_condition_count
  unfolding inventory_is_valid
  length_lem = ground (arith, valid)

  keys_lem : distinct_count same_key (map view_key i.records) ≡ i.applicable_view_tuple_count
  unfolding inventory_is_valid
  keys_lem = ground (arith, valid)

  models_lem :
      all (λ c. contains c.model_id model_order && has_models i.records (view_key c)) i.records
      ≡ true
  unfolding inventory_is_valid
  models_lem = ground (arith, valid)

  -- An accepted inventory has at least five conditions for each applicable view tuple that it
  -- counts.
  pub inventory_is_valid-counts : 5 * i.applicable_view_tuple_count ≤ i.actual_condition_count
  inventory_is_valid-counts =
      let complete =
        All-map _ (λ c. has_models i.records (view_key c) ≡ true) (models_of_key i) i.records
          (all→All _ i.records models_lem) in
      let keys = All-view_key (λ k. has_models i.records k ≡ true) i.records complete in
      omega (
        arith,
        counts_reach model_order i.records (map view_key i.records) keys,
        counts_within model_order i.records models_differ,
        length_lem,
        keys_lem,
      )
