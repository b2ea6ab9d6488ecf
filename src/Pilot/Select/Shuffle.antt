-- ===== src/Pilot/Select/Shuffle.antt =====
-- The order of the candidates does not matter: `select_candidate_ids` of
-- experiments/pilot_planning.py.
use schema_guard.Base.{
  ℕ, true, false, ◌||◌, leb, eqb, List, [], ◌∷◌, ◌≡◌, refl, sym, ap, ◌∙◌, arith, Bool-cases, inl,
  inr, Error, err,
}
use schema_guard.Base.Counting.{member}
use schema_guard.Split.Config.{Arithmetic}
use schema_guard.Pilot.Metadata.{Candidate, SelectionPolicy}
use schema_guard.Pilot.Select.{
  insert_candidate, sort_candidates, ids, all_different, select_candidate_ids,
}

-- The same candidates in another order.
pub data IsShuffle : List Candidate → List Candidate → Type 0 where
  unchanged : {xs : List Candidate} → IsShuffle xs xs
  behind : {x : Candidate} {xs ys : List Candidate} → IsShuffle xs ys → IsShuffle (x ∷ xs) (x ∷ ys)
  exchange : {x y : Candidate} {xs : List Candidate} → IsShuffle (x ∷ y ∷ xs) (y ∷ x ∷ xs)
  followed : {xs ys zs : List Candidate} → IsShuffle xs ys → IsShuffle ys zs → IsShuffle xs zs

member-IsShuffle :
    (n : ℕ) (xs ys : List Candidate)
    → IsShuffle xs ys
    → member eqb n (ids xs) ≡ member eqb n (ids ys)
unfolding member
member-IsShuffle n xs ys unchanged = refl
member-IsShuffle n xs ys (behind {x = x} {xs = us} {ys = vs} h) =
    ap (λ b. eqb x.dataset_id n || b) (member-IsShuffle n us vs h)
member-IsShuffle n xs ys (exchange {x = x} {y = y} {xs = us}) = ground arith
member-IsShuffle n xs ys (followed {xs = us} {ys = vs} {zs = ws} h k) =
    member-IsShuffle n us vs h ∙ member-IsShuffle n vs ws k

all_different-IsShuffle :
    (xs ys : List Candidate) → IsShuffle xs ys → all_different (ids xs) ≡ all_different (ids ys)
unfolding all_different member
all_different-IsShuffle xs ys unchanged = refl
all_different-IsShuffle xs ys (behind {x = x} {xs = us} {ys = vs} h) =
    ground (arith, member-IsShuffle x.dataset_id us vs h, all_different-IsShuffle us vs h)
all_different-IsShuffle xs ys (exchange {x = x} {y = y} {xs = us}) = ground arith
all_different-IsShuffle xs ys (followed {xs = us} {ys = vs} {zs = ws} h k) =
    all_different-IsShuffle us vs h ∙ all_different-IsShuffle vs ws k

insert_candidate-IsShuffle :
    (c : Candidate) (ds : List Candidate) → IsShuffle (insert_candidate c ds) (c ∷ ds)
unfolding insert_candidate
insert_candidate-IsShuffle c [] = unchanged
insert_candidate-IsShuffle c (d ∷ ds) = elim (Bool-cases (leb c.dataset_id d.dataset_id)) [
  | inl e ↦ rw e unchanged
  | inr e ↦ rw e (followed (behind (insert_candidate-IsShuffle c ds)) exchange)
]

sort_candidates-IsShuffle : (cs : List Candidate) → IsShuffle (sort_candidates cs) cs
unfolding sort_candidates
sort_candidates-IsShuffle [] = unchanged
sort_candidates-IsShuffle (c ∷ cs) =
    followed (insert_candidate-IsShuffle c (sort_candidates cs))
      (behind (sort_candidates-IsShuffle cs))

-- Candidates with different identifiers are inserted in either order.
insert_candidate_comm :
    (c d : Candidate) (es : List Candidate)
    → eqb c.dataset_id d.dataset_id ≡ false
    → insert_candidate c (insert_candidate d es) ≡ insert_candidate d (insert_candidate c es)
unfolding insert_candidate
insert_candidate_comm c d [] h = ground arith
insert_candidate_comm c d (e ∷ es) h = ground (arith, insert_candidate_comm c d es h)

sort_candidates_agrees :
    (xs ys : List Candidate)
    → IsShuffle xs ys
    → all_different (ids xs) ≡ true
    → sort_candidates xs ≡ sort_candidates ys
unfolding sort_candidates all_different member
sort_candidates_agrees xs ys unchanged d = refl
sort_candidates_agrees xs ys (behind {x = x} {xs = us} {ys = vs} h) d =
    ap (insert_candidate x) (sort_candidates_agrees us vs h (ground (arith, d)))
sort_candidates_agrees xs ys (exchange {x = x} {y = y} {xs = us}) d =
    insert_candidate_comm x y (sort_candidates us) (ground (arith, d))
sort_candidates_agrees xs ys (followed {xs = us} {ys = vs} {zs = ws} h k) d =
    sort_candidates_agrees us vs h d
    ∙ sort_candidates_agrees vs ws k (sym (all_different-IsShuffle us vs h) ∙ d)

module _ (a : Arithmetic) (policy : SelectionPolicy) where
  repeated :
      (xs : List Candidate) (anchor_id : ℕ)
      → all_different (ids xs) ≡ false
      → select_candidate_ids a policy xs anchor_id ≡ err Error.value_error
  unfolding select_candidate_ids
  repeated xs anchor_id h =
      let same : all_different (ids (sort_candidates xs)) ≡ false =
        all_different-IsShuffle (sort_candidates xs) xs (sort_candidates-IsShuffle xs) ∙ h in
      rw same refl

  -- The selection gives the same result, or raises the same exception, for the same candidates in
  -- any order.
  pub select_candidate_ids-IsShuffle :
      (xs ys : List Candidate) (anchor_id : ℕ)
      → IsShuffle xs ys
      → select_candidate_ids a policy xs anchor_id ≡ select_candidate_ids a policy ys anchor_id
  unfolding select_candidate_ids
  select_candidate_ids-IsShuffle xs ys anchor_id h = elim (Bool-cases (all_different (ids xs))) [
    | inl e ↦ rw (sort_candidates_agrees xs ys h e) refl
    | inr e ↦
        repeated xs anchor_id e
        ∙ sym (repeated ys anchor_id (sym (all_different-IsShuffle xs ys h) ∙ e))
  ]
