-- ===== src/Pilot/Select/Best.antt =====
-- The result of `select_candidate_ids` of experiments/pilot_planning.py is the best choice.
use schema_guard.Base.{
  ℕ, zero, suc, Bool, true, false, ◌&&◌, ◌||◌, ltb, eqb, Option, none, some, some-injective, List,
  [], ◌∷◌, map, length, ◌≡◌, refl, sym, subst, ap, ◌∙◌, ◌⊎◌, inl, inr, arith, In, here, there,
  In-cons, In-append, In-append_left, In-append_right, Bool-cases, Result, ok, >>=-eq-ok, >>-eq-ok,
  ok-injective, ok-ne-err,
}
use schema_guard.Split.Config.{Arithmetic}
use schema_guard.Split.Select.{precedes}
use schema_guard.Split.Select.Order.{place_trans, place_irrefl, precedes_trans, precedes_irrefl}
use schema_guard.Pilot.Metadata.{Candidate, SelectionPolicy}
use schema_guard.Pilot.Select.{
  Scored, beats, improves, keep_better, search_subsets, combinations, sort_candidates, find_anchor,
  without_anchor, score_subset, best_subset, selected_ids, select_candidate_ids,
}

-- The lexicographic order of the places, that of the collisions reversed.
last_places : Scored → Scored → Bool
last_places s t =
    ltb t.score.unique_metadata_signatures s.score.unique_metadata_signatures
    || eqb t.score.unique_metadata_signatures s.score.unique_metadata_signatures
      && precedes s.candidate_ids t.candidate_ids

third_places : Scored → Scored → Bool
third_places s t =
    ltb s.score.profile_collisions t.score.profile_collisions
    || eqb s.score.profile_collisions t.score.profile_collisions && last_places s t

second_places : Scored → Scored → Bool
second_places s t =
    ltb t.score.strata s.score.strata || eqb t.score.strata s.score.strata && third_places s t

places : Scored → Scored → Bool
places s t =
    ltb t.score.required_covered s.score.required_covered
    || eqb t.score.required_covered s.score.required_covered && second_places s t

improves-places : (s t : Scored) → improves s t ≡ places s t
unfolding improves beats places second_places third_places last_places
improves-places s t = ground arith

places_trans : (s t u : Scored) → places s t ≡ true → places t u ≡ true → places s u ≡ true
unfolding places second_places third_places last_places
places_trans s t u h k =
    place_trans u.score.required_covered t.score.required_covered s.score.required_covered _ _ _
      (λ k2 h2.
        place_trans u.score.strata t.score.strata s.score.strata _ _ _
          (λ k3 h3.
            place_trans s.score.profile_collisions t.score.profile_collisions
              u.score.profile_collisions _ _ _
              (λ h4 k4.
                place_trans u.score.unique_metadata_signatures t.score.unique_metadata_signatures
                  s.score.unique_metadata_signatures _ _ _
                  (λ k5 h5. precedes_trans s.candidate_ids t.candidate_ids u.candidate_ids h5 k5) k4
                  h4)
              h3 k3)
          k2 h2)
      k h

places_irrefl : (s : Scored) → places s s ≡ false
unfolding places second_places third_places last_places
places_irrefl s = place_irrefl s.score.required_covered _ (
    place_irrefl s.score.strata _ (
      place_irrefl s.score.profile_collisions _
        (place_irrefl s.score.unique_metadata_signatures _ (precedes_irrefl s.candidate_ids))))

improves_irrefl : (s : Scored) → improves s s ≡ false
improves_irrefl s = improves-places s s ∙ places_irrefl s

not_improves : (k l m : Scored) → improves l m ≡ true → improves k m ≡ false → improves k l ≡ false
not_improves k l m h j =
    ground
      (arith, improves-places l m, improves-places k m, improves-places k l, places_trans k l m)

-- What does not improve on the best so far does not improve on what is kept.
keep_better-false :
    (k s b : Scored) → improves k b ≡ false → improves k (keep_better s (some b)) ≡ false
keep_better-false k s b h = elim (Bool-cases (improves s b)) [
  | inl e ↦ rw e (not_improves k s b e h)
  | inr e ↦ rw e h
]

keep_better_self : (s : Scored) (best : Option Scored) → improves s (keep_better s best) ≡ false
keep_better_self s none = improves_irrefl s
keep_better_self s (some b) = elim (Bool-cases (improves s b)) [
  | inl e ↦ rw e (improves_irrefl s)
  | inr e ↦ rw e e
]

module _ {ℓ} {A : Type ℓ} (judged : A → Result Scored) where
  search_subsets-cons :
      (s : A) (ss : List A) (best : Option Scored) (e : Scored)
      → search_subsets judged (s ∷ ss) best ≡ ok (some e)
      → (d : Scored) × (judged s ≡ ok d)
        × (search_subsets judged ss (some (keep_better d best)) ≡ ok (some e))
  unfolding search_subsets
  search_subsets-cons s ss best e h = >>=-eq-ok (judged s) _ h

  search_subsets-keeps :
      (ss : List A) (b e k : Scored)
      → search_subsets judged ss (some b) ≡ ok (some e)
      → improves k b ≡ false
      → improves k e ≡ false
  unfolding search_subsets
  search_subsets-keeps [] b e k h j =
      subst (λ x. improves k x ≡ false) (some-injective (ok-injective h)) j
  search_subsets-keeps (s ∷ ss) b e k h j =
      let (d, made, rest) = search_subsets-cons s ss (some b) e h in
      search_subsets-keeps ss (keep_better d (some b)) e k rest (keep_better-false k d b j)

  search_subsets-best :
      (ss : List A) (best : Option Scored) (e : Scored) (s : A) (k : Scored)
      → search_subsets judged ss best ≡ ok (some e)
      → In s ss
      → judged s ≡ ok k
      → improves k e ≡ false
  search_subsets-best [] best e s k h i j = elim i [ ]
  search_subsets-best (r ∷ ss) best e s k h i j =
      let (d, made, rest) = search_subsets-cons r ss best e h in
      elim (In-cons i) [
        | inl same ↦
            let both : d ≡ k = ok-injective (sym made ∙ ap judged (sym same) ∙ j) in
            search_subsets-keeps ss (keep_better d best) e k rest
              (subst (λ x. improves x (keep_better d best) ≡ false) both (keep_better_self d best))
        | inr deep ↦ search_subsets-best ss (some (keep_better d best)) e s k rest deep j
      ]

  -- The best so far, or what a subset scores.
  search_subsets-from :
      (ss : List A) (best : Option Scored) (e : Scored)
      → search_subsets judged ss best ≡ ok (some e)
      → (best ≡ some e) ⊎ ((s : A) × In s ss × (judged s ≡ ok e))
  unfolding search_subsets
  search_subsets-from [] best e h = inl (ok-injective h)
  search_subsets-from (r ∷ ss) best e h =
      let (d, made, rest) = search_subsets-cons r ss best e h in
      elim (search_subsets-from ss (some (keep_better d best)) e rest) [
        | inl kept ↦ kept_from r ss best d e made (some-injective kept)
        | inr (s, i, j) ↦ inr (s, there i, j)
      ]
    where
      kept_from :
          (r : A) (ss : List A) (best : Option Scored) (d e : Scored)
          → judged r ≡ ok d
          → keep_better d best ≡ e
          → (best ≡ some e) ⊎ ((s : A) × In s (r ∷ ss) × (judged s ≡ ok e))
      kept_from r ss none d e made same = inr (r, here, made ∙ ap ok same)
      kept_from r ss (some b) d e made same = elim (Bool-cases (improves d b)) [
        | inl t ↦ inr (r, here, made ∙ ap ok (rw t at same))
        | inr t ↦ inl (ap some (rw t at same))
      ]

-- A list with some elements left out, the others in their order.
pub data IsSublist {ℓ} {A : Type ℓ} : List A → List A → Type ℓ where
  stop : IsSublist [] []
  keep : {x : A} {xs ys : List A} → IsSublist xs ys → IsSublist (x ∷ xs) (x ∷ ys)
  skip : {y : A} {xs ys : List A} → IsSublist xs ys → IsSublist xs (y ∷ ys)

In-map_cons {ℓ} :
    {A : Type ℓ} (x : A) {xs : List A} {ls : List (List A)}
    → In xs ls
    → In (x ∷ xs) (map (◌∷◌ x) ls)
In-map_cons x here = here
In-map_cons x (there i) = there (In-map_cons x i)

nil_combination {ℓ} : {A : Type ℓ} (xs : List A) → length xs ≡ 0 → In xs ([] ∷ [])
nil_combination [] e = here
nil_combination (x ∷ xs) e = absurd (omega (arith, e))

-- Every sublist of the length is a combination.
sublist-combinations {ℓ} :
    {A : Type ℓ} (k : ℕ) (xs ys : List A)
    → IsSublist xs ys
    → length xs ≡ k
    → In xs (combinations k ys)
unfolding combinations
sublist-combinations zero xs ys stop e = here
sublist-combinations zero xs ys (keep h) e = absurd (omega (arith, e))
sublist-combinations zero us vs (skip {y} {xs} {ys} h) e = nil_combination us e
sublist-combinations (suc k) xs ys stop e = absurd (omega (arith, e))
sublist-combinations (suc k) us vs (keep {x} {xs} {ys} h) e =
    In-append_left (combinations (suc k) ys)
      (In-map_cons x (sublist-combinations k xs ys h (omega (arith, e))))
sublist-combinations (suc k) us vs (skip {y} {xs} {ys} h) e =
    In-append_right (map (◌∷◌ y) (combinations k ys)) (sublist-combinations (suc k) xs ys h e)

nil_sublist {ℓ} : {A : Type ℓ} (ys : List A) → IsSublist [] ys
nil_sublist [] = stop
nil_sublist (y ∷ ys) = skip (nil_sublist ys)

In-map_cons_back {ℓ} :
    {A : Type ℓ} (x : A) (xs : List A) (ls : List (List A))
    → In xs (map (◌∷◌ x) ls)
    → (zs : List A) × (xs ≡ x ∷ zs) × In zs ls
In-map_cons_back x xs [] i = elim i [ ]
In-map_cons_back x xs (l ∷ ls) i = elim (In-cons i) [
  | inl same ↦ (l, same, here)
  | inr deep ↦ let (zs, e, j) = In-map_cons_back x xs ls deep in (zs, e, there j)
]

-- A combination is a sublist of the length.
combinations-sublist {ℓ} :
    {A : Type ℓ} (k : ℕ) (xs ys : List A)
    → In xs (combinations k ys)
    → IsSublist xs ys × (length xs ≡ k)
unfolding combinations
combinations-sublist zero xs ys i = elim (In-cons i) [
  | inl same ↦ (rw same (nil_sublist ys), rw same refl)
  | inr deep ↦ elim deep [ ]
]
combinations-sublist (suc k) xs [] i = elim i [ ]
combinations-sublist (suc k) xs (y ∷ ys) i = elim (In-append (map (◌∷◌ y) (combinations k ys)) i) [
  | inl with_y ↦
      let (zs, e, j) = In-map_cons_back y xs (combinations k ys) with_y in
      let (sub, len) = combinations-sublist k zs ys j in (rw e (keep sub), rw e (ap suc len))
  | inr rest ↦ let (sub, len) = combinations-sublist (suc k) xs ys rest in (skip sub, len)
]

module _ (a : Arithmetic) (policy : SelectionPolicy) where
  -- The best choice of seven from the others to join the anchor.
  pub record IsBestSubset (anchor : Candidate) (others : List Candidate) (best : Scored)
      : Type 0 where
    pub chosen : List Candidate
    pub from_others : IsSublist chosen others
    pub seven : length chosen ≡ 7
    pub scored : score_subset a policy (anchor ∷ chosen) ≡ ok best
    pub unbeaten :
        (rivals : List Candidate) (score : Scored)
        → IsSublist rivals others
        → length rivals ≡ 7
        → score_subset a policy (anchor ∷ rivals) ≡ ok score
        → improves score best ≡ false

  best_subset-IsBestSubset :
      (anchor : Option Candidate) (others : List Candidate) (best : Scored)
      → best_subset a policy anchor others ≡ ok (some best)
      → (c : Candidate) × (anchor ≡ some c) × IsBestSubset c others best
  unfolding best_subset
  best_subset-IsBestSubset none others best h = absurd (ok-ne-err (sym h))
  best_subset-IsBestSubset (some c) others best h =
      elim (search_subsets-from (λ r. score_subset a policy (c ∷ r)) (combinations 7 others) none
        best h) [
          | inl impossible ↦ absurd (cc)
          | inr (r, i, j) ↦
              let (sub, seven) = combinations-sublist 7 r others i in
              (
                c,
                refl,
                record {
                  chosen = r;
                  from_others = sub;
                  seven = seven;
                  scored = j;
                  unbeaten = λ rivals score s l e.
                      search_subsets-best (λ r. score_subset a policy (c ∷ r))
                        (combinations 7 others) none best rivals score h
                        (sublist-combinations 7 rivals others s l) e;
                },
              )
        ]

  -- A selection that returns has the identifiers of the anchor and of seven other candidates, such
  -- that no other seven have a better score, or the same score and smaller identifiers.
  pub select_candidate_ids-IsBestSubset :
      (candidates : List Candidate) (anchor_id : ℕ) (selected : List ℕ)
      → select_candidate_ids a policy candidates anchor_id ≡ ok selected
      → (anchor : Candidate) × (best : Scored) × (find_anchor anchor_id (sort_candidates candidates)
          ≡ some anchor)
        × (best.candidate_ids ≡ selected)
        × IsBestSubset anchor (without_anchor anchor_id (sort_candidates candidates)) best
  unfolding select_candidate_ids
  select_candidate_ids-IsBestSubset candidates anchor_id selected h =
      let ordered = sort_candidates candidates in
      let (found_best, checked, chosen) = >>=-eq-ok _ _ h in
      let (passed, checks, searched) =
        >>-eq-ok _
          (best_subset a policy (find_anchor anchor_id ordered) (without_anchor anchor_id ordered))
          checked in
      let (best, is_best, same) = selected_best found_best chosen in
      let (anchor, found_anchor, result) =
        best_subset-IsBestSubset (find_anchor anchor_id ordered) (without_anchor anchor_id ordered)
          best (searched ∙ ap ok is_best) in
      (anchor, best, found_anchor, same, result)
    where
      selected_best :
          (o : Option Scored)
          → selected_ids a policy o ≡ ok selected
          → (best : Scored) × (o ≡ some best) × (best.candidate_ids ≡ selected)
      selected_best none e = absurd (ok-ne-err (sym e))
      selected_best (some best) e = (best, refl, ok-injective e)
