-- ===== src/Cache/Faults/Accepted.antt =====
-- cache/contracts.py: what fault evidence that was accepted says of every fault of the policy.
use schema_guard.Base.{
  same_names, same_bool, ◌≡◌, refl, sym, ◌∙◌, inl, inr, String, Bool, true, false, some, List, [],
  ◌∷◌, map, ◌==◌, eq_iff, all, All, arith, Option-cases, Bool-cases, if◌then◌else◌,
}
use schema_guard.Base.Dict.{lookup}
use schema_guard.Hashing.{Digest}
use schema_guard.Cache.FaultPolicy.{
  FaultExpectation, fault_policy, canonical_fault_names, FaultInjectionRecord,
}
use schema_guard.Cache.Faults.{
  as_expected, derived_status, matches_expectation, fault_record_is_valid, FaultInjectionEvidence,
  fault_evidence_is_valid,
}

same_bool-eq : (a b : Bool) → same_bool a b ≡ true → a ≡ b
same_bool-eq true b e = sym e
same_bool-eq false b e = ground arith

-- The fault behaved as the policy expects of it, and its lock was released.
pub record Expected (r : FaultInjectionRecord) (x : FaultExpectation) : Type 0 where
  pub category : r.observed_failure_category ≡ x.expected_failure_category
  pub accepted : r.artifact_accepted ≡ x.expected_artifact_accepted
  pub resumed : r.resume_behavior ≡ x.expected_resume_behavior
  pub released : r.lock_released ≡ true

Expected-of_tests :
    (r : FaultInjectionRecord) (x : FaultExpectation)
    → matches_expectation r x ≡ true
    → as_expected r ≡ true
    → Expected r x
unfolding matches_expectation as_expected
Expected-of_tests r x m e = record {
  category = ground (
    arith,
    eq_iff r.observed_failure_category r.expected_failure_category,
    eq_iff r.expected_failure_category x.expected_failure_category,
  );
  accepted = ground (
    arith,
    same_bool-eq r.artifact_accepted r.expected_artifact_accepted,
    same_bool-eq r.expected_artifact_accepted x.expected_artifact_accepted,
  );
  resumed = ground (
    arith,
    eq_iff r.resume_behavior r.expected_resume_behavior,
    eq_iff r.expected_resume_behavior x.expected_resume_behavior,
  );
  released = ground arith;
}

derived_status-pass : (r : FaultInjectionRecord) → derived_status r ≡ "PASS" → as_expected r ≡ true
derived_status-pass r e = elim (Bool-cases (as_expected r)) [
  | inl good ↦ good
  | inr bad ↦
      let x : (if false then "PASS" else "FAIL") == "PASS" ≡ true =
        (eq_iff _ "PASS").1 (rw bad at e) in
      cc x
]

same_names-eq : (xs ys : List String) → same_names xs ys ≡ true → xs ≡ ys
unfolding same_names
same_names-eq [] [] e = refl
same_names-eq [] (y ∷ ys) e = cc
same_names-eq (x ∷ xs) [] e = cc
same_names-eq (x ∷ xs) (y ∷ ys) e = ground (arith, eq_iff x y, same_names-eq xs ys)

module _ (h : Digest) where
  -- The policy has an expectation for the record, and the record fulfils it.
  abbrev pub IsFulfilled : FaultInjectionRecord → Type 0
  IsFulfilled r =
      (x : FaultExpectation) × (lookup r.fault_name fault_policy ≡ some x) × Expected r x

  IsFulfilled-of_valid :
      (r : FaultInjectionRecord)
      → fault_record_is_valid h r ≡ true
      → r.status == "PASS" ≡ true
      → IsFulfilled r
  unfolding fault_record_is_valid
  IsFulfilled-of_valid r v p = elim (Option-cases (lookup r.fault_name fault_policy)) [
    | inl unknown ↦ absurd (ground arith)
    | inr (x, known) ↦
        let m : matches_expectation r x ≡ true = ground arith in
        let s : r.status ≡ derived_status r = ground (arith, eq_iff r.status (derived_status r)) in
        (
          x,
          known,
          Expected-of_tests r x m (derived_status-pass r (sym s ∙ (eq_iff r.status "PASS").0 p)),
        )
  ]

  records-IsFulfilled :
      (rs : List FaultInjectionRecord)
      → all (fault_record_is_valid h) rs ≡ true
      → all (λ r. r.status == "PASS") rs ≡ true
      → All IsFulfilled rs
  records-IsFulfilled [] v p = tt
  records-IsFulfilled (r ∷ rs) v p = (
    IsFulfilled-of_valid r (ground arith) (ground arith),
    records-IsFulfilled rs (ground arith) (ground arith),
  )

  -- Accepted fault evidence has one record for each fault of the policy, in its order, and in each
  -- the failure category, the acceptance of the artifact and the resume behaviour that were observed
  -- are those of the policy, and the lock was released.
  pub fault_evidence_is_valid-IsFulfilled :
      (e : FaultInjectionEvidence)
      → fault_evidence_is_valid h e ≡ true
      → (map (λ r. r.fault_name) e.records ≡ canonical_fault_names) × All IsFulfilled e.records
  unfolding fault_evidence_is_valid
  fault_evidence_is_valid-IsFulfilled e v = (
    same_names-eq (map (λ r. r.fault_name) e.records) canonical_fault_names (ground arith),
    records-IsFulfilled e.records (ground arith) (ground arith),
  )
