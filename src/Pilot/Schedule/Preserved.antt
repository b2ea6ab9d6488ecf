-- ===== src/Pilot/Schedule/Preserved.antt =====
-- The stages hold every condition of the inventory: `build_staged_schedule` of
-- experiments/pilot_planning.py.
use schema_guard.Hashing.{sort_texts}
use schema_guard.Base.{
  require, ℕ, ◌+◌, Bool, true, false, eqb, List, [], ◌∷◌, ◌++◌, map, String, ok, ◌≡◌, refl, sym, ap,
  subst, ◌∙◌, Bool-cases, inl, inr, >>=-eq-ok, >>-eq-ok, ok-injective, All,
}
use schema_guard.Base.Counting.{member}
use schema_guard.Pilot.Select.{model_order}
use schema_guard.Pilot.Condition.{PlannedCondition, cpu, cuda}
use schema_guard.Pilot.Inventory.{
  PilotConditionInventory, condition_ids, count_where, runs_on, is_ascending,
}
use schema_guard.Pilot.Schedule.{
  Floats, Work, RuntimeEstimate, ResourcePolicy, PilotProtocolArtifact, PilotScheduleStage,
  SchedulePayload, PilotStagedSchedule, each_of, Buckets, fill, empty_buckets, pairs, concat,
}
use schema_guard.Pilot.Schedule.Build.{
  staged_ids, validated, stage_of, build_stage, build_stages, models_agree, sort_numbers,
  schedule_is_valid, payload_of, schedule_of, build_staged_schedule,
}
use schema_guard.Pilot.Schedule.Stages.{of_dataset, ++-nil, fill-member, each_of-filled}
use schema_guard.Pilot.Schedule.Occurrences.{
  occurrences, occurrences-append, occurrences-sort_texts, total, total-occurrences, total-append,
  concat-pairs, occurrences-concat,
}

validated-eq-ok {ℓ} :
    {A : Type ℓ} (b : Bool) (a : A) {r : A} → validated b a ≡ ok r → (b ≡ true) × (a ≡ r)
validated-eq-ok true a h = (refl, ok-injective h)
validated-eq-ok false a h = cc

-- The records of the two data sets of a stage.
unfoldable pub stage_records : List PlannedCondition → ℕ × ℕ → List PlannedCondition
stage_records cs pair = of_dataset pair.0 cs ++ of_dataset pair.1 cs

-- A stage holds the identifiers of exactly the records of its two data sets, and counts them by
-- the device that they run on.
pub record IsStageOf (cs : List PlannedCondition) (st : PilotScheduleStage) : Type 0 where
  pub identifiers : st.condition_ids ≡ sort_texts (condition_ids (stage_records cs st.dataset_ids))
  pub cpu_count :
      st.cpu_condition_count ≡ count_where (runs_on cpu) (stage_records cs st.dataset_ids)
  pub cuda_count :
      st.cuda_condition_count ≡ count_where (runs_on cuda) (stage_records cs st.dataset_ids)

stage-occurrences :
    (cs : List PlannedCondition) {st : PilotScheduleStage}
    → IsStageOf cs st
    → (s : String)
    → occurrences s st.condition_ids ≡ total s (st.dataset_ids.0 ∷ st.dataset_ids.1 ∷ []) cs
unfolding stage_records
stage-occurrences cs {st = st} is_stage s =
    let (a, b) = st.dataset_ids in
    ap (occurrences s) is_stage.identifiers
    ∙ occurrences-sort_texts s _
    ∙ ap (λ ds. occurrences s (condition_ids (of_dataset a cs ++ ds)))
        (sym (++-nil (of_dataset b cs)))
    ∙ occurrences-concat s cs (a ∷ b ∷ [])

module _ (f : Floats) (policy : ResourcePolicy) (estimate : RuntimeEstimate) where
  stage_of-IsStageOf :
      (cs : List PlannedCondition) (a b : ℕ) {lists : List (List PlannedCondition)}
      → lists ≡ map (λ k. of_dataset k cs) (a ∷ b ∷ [])
      → (work : List Work) (storage : List ℕ)
      → IsStageOf cs (stage_of f policy estimate a b (concat lists) work storage)
  unfolding stage_of stage_records
  stage_of-IsStageOf cs a b e work storage =
      rw (e, ++-nil (of_dataset b cs))
        (record { identifiers = refl; cpu_count = refl; cuda_count = refl })

  module _ (cs : List PlannedCondition) (ks : List ℕ) {buckets : Buckets}
      (filled : fill cs (empty_buckets ks) ≡ ok buckets) where
    built_stage :
        (g : List ℕ) {st : PilotScheduleStage}
        → build_stage f policy estimate buckets g ≡ ok st
        → (g ≡ st.dataset_ids.0 ∷ st.dataset_ids.1 ∷ []) × IsStageOf cs st
    unfolding build_stage stage_of
    built_stage [] h = cc
    built_stage (a ∷ []) h = cc
    built_stage (a ∷ b ∷ c ∷ g) h = cc
    built_stage (a ∷ b ∷ []) h =
        let (records, p, h1) = >>=-eq-ok (each_of buckets (a ∷ b ∷ [])) _ h in
        let (work, q, h2) =
          >>=-eq-ok (each_of estimate.estimated_work_seconds_by_dataset (a ∷ b ∷ [])) _ h1 in
        let (storage, r, h3) =
          >>=-eq-ok (each_of estimate.estimated_prediction_storage_by_dataset_bytes (a ∷ b ∷ [])) _
            h2 in
        let e = each_of-filled cs ks filled (a ∷ b ∷ []) p in
        let (v, made) = validated-eq-ok _ _ h3 in
        subst (λ st. (a ∷ b ∷ [] ≡ st.dataset_ids.0 ∷ st.dataset_ids.1 ∷ []) × IsStageOf cs st) made
          (refl, stage_of-IsStageOf cs a b e work storage)

    built_stages :
        (gs : List (List ℕ)) {sts : List PilotScheduleStage}
        → build_stages f policy estimate buckets gs ≡ ok sts
        → All (IsStageOf cs) sts
          × ((s : String) → occurrences s (staged_ids sts) ≡ total s (concat gs) cs)
    unfolding build_stages occurrences count_where total
    built_stages [] h =
        subst (λ sts. All (IsStageOf cs) sts × ((s : String) → occurrences s (staged_ids sts) ≡ 0))
          (ok-injective h) (tt, λ s. refl)
    built_stages (g ∷ gs) h =
        let (st, p, h1) = >>=-eq-ok (build_stage f policy estimate buckets g) _ h in
        let (rest, q, h2) = >>=-eq-ok (build_stages f policy estimate buckets gs) _ h1 in
        let (eg, here) = built_stage g p in
        let (later, counts) = built_stages gs q in
        subst
          (λ sts.
            All (IsStageOf cs) sts
            × ((s : String) → occurrences s (staged_ids sts) ≡ total s (g ++ concat gs) cs))
          (ok-injective h2)
          (
            (here, later),
            λ s.
                occurrences-append s st.condition_ids (staged_ids rest)
                ∙ ap (λ n. n + occurrences s (staged_ids rest)) (stage-occurrences cs here s)
                ∙ ap (◌+◌ _) (counts s)
                ∙ ap (λ h. total s h cs + total s (concat gs) cs) (sym eg)
                ∙ sym (total-append s g (concat gs) cs),
          )

module _ (f : Floats) (digest : SchedulePayload → String) where
  record IsBuilt (inventory : PilotConditionInventory) (r : PilotStagedSchedule) : Type 0 where
    valid : schedule_is_valid f digest r ≡ true
    stages : All (IsStageOf inventory.records) r.payload.stages
    known : All (λ c. member eqb c.dataset_id r.payload.dataset_ids ≡ true) inventory.records
    counts :
        (s : String)
        → occurrences s (staged_ids r.payload.stages)
          ≡ total s r.payload.dataset_ids inventory.records

  -- What the call comes to when it returns.
  build_staged_schedule-IsBuilt :
      (protocol : PilotProtocolArtifact) (inventory : PilotConditionInventory)
      {r : PilotStagedSchedule}
      → build_staged_schedule f digest protocol inventory ≡ ok r
      → IsBuilt inventory r
  unfolding build_staged_schedule
  build_staged_schedule-IsBuilt protocol inventory h =
      let ks = sort_numbers protocol.selected_datasets in
      let (checked, p, h1) = >>-eq-ok _ _ h in
      let (buckets, q, h2) = >>=-eq-ok (fill inventory.records (empty_buckets ks)) _ h1 in
      let (stages, b, h3) =
        >>=-eq-ok
          (build_stages f protocol.resource_policy protocol.runtime_estimate buckets (pairs ks)) _
          h2 in
      let (preserved, c, h4) = >>-eq-ok _ _ h3 in
      let (agree, m, h5) =
        >>=-eq-ok (models_agree stages inventory.counts_by_model model_order) _ h4 in
      let (agreed, d, h6) = >>-eq-ok (require agree) _ h5 in
      let schedule = schedule_of f digest (payload_of f digest protocol inventory ks stages) in
      let (v, made) = validated-eq-ok (schedule_is_valid f digest schedule) schedule h6 in
      let (held, counts) =
        built_stages f protocol.resource_policy protocol.runtime_estimate inventory.records ks q
          (pairs ks) b in
      subst (IsBuilt inventory) made (record {
        valid = v;
        stages = held;
        known = fill-member inventory.records ks q;
        counts = λ s. counts s ∙ ap (λ js. total s js inventory.records) (concat-pairs ks);
      })

  schedule_is_valid-ascending :
      (r : PilotStagedSchedule)
      → schedule_is_valid f digest r ≡ true
      → is_ascending r.payload.dataset_ids ≡ true
  unfolding schedule_is_valid
  schedule_is_valid-ascending r h = elim (Bool-cases (is_ascending r.payload.dataset_ids)) [
    | inl e ↦ e
    | inr e ↦ let impossible : false ≡ true = rw e at h in cc
  ]

  -- A schedule that is returned has every condition identifier as often in its stages as in the
  -- inventory, and every stage has the sorted identifiers of exactly the records of its two data
  -- sets, and counts those that run on the CPU and those that run on CUDA.
  pub build_staged_schedule_preserves :
      (protocol : PilotProtocolArtifact) (inventory : PilotConditionInventory)
      (r : PilotStagedSchedule)
      → build_staged_schedule f digest protocol inventory ≡ ok r
      → ((s : String)
          → occurrences s (staged_ids r.payload.stages)
            ≡ occurrences s (condition_ids inventory.records))
        × All (IsStageOf inventory.records) r.payload.stages
  build_staged_schedule_preserves protocol inventory r h =
      let built = build_staged_schedule-IsBuilt protocol inventory h in
      (
        λ s.
            built.counts s
            ∙ total-occurrences s r.payload.dataset_ids inventory.records
                (schedule_is_valid-ascending r built.valid) built.known,
        built.stages,
      )
