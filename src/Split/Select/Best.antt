-- ===== src/Split/Select/Best.antt =====
-- What the search over all pairs of folds collects: splits/selection.py.
use schema_guard.Base.{
  ℕ, zero, suc, ◌+◌, ◌<◌, ◌≤◌, true, eqb, List, [], ◌∷◌, ◌≡◌, refl, ◌≢◌, ◌⊎◌, inl, inr, arith, In,
  here, there, In-cons, In-append, In-append_left, In-append_right, Bool-cases, Result, ok, ◌>>=◌,
  >>=-eq-ok, ok-injective,
}
use schema_guard.Split.Candidate.{
  Selection, Item, empty_partition, hard_constraint_violation, valid,
}
use schema_guard.Split.Select.{Search, note_item, search_tests, search_folds, range_from}

module _ (judged : ℕ → ℕ → Result Item) where
  -- The search went from `s` to `t` over the pairs of `P`: its new candidates are the valid ones.
  pub record Collects (P : ℕ → ℕ → Type 0) (s t : Search) : Type 0 where
    pub keeps : (c : Selection) → In c s.candidates → In c t.candidates
    pub complete : (i j : ℕ) (c : Selection) → P i j → judged i j ≡ ok (valid c) → In c t.candidates
    pub sound :
        (c : Selection)
        → In c t.candidates
        → In c s.candidates ⊎ ((i : ℕ) × (j : ℕ) × P i j × (judged i j ≡ ok (valid c)))

module _ {judged : ℕ → ℕ → Result Item} where
  pub Collects-none :
      {P : ℕ → ℕ → Type 0} (s : Search) → ((i j : ℕ) → P i j → ⊥) → Collects judged P s s
  Collects-none s never = record {
    keeps = λ c i. i;
    complete = λ i j c p e. absurd (never i j p);
    sound = λ c i. inl i;
  }

  pub Collects-then :
      {P Q R : ℕ → ℕ → Type 0} {s t u : Search}
      → ((i j : ℕ) → R i j → P i j ⊎ Q i j)
      → ((i j : ℕ) → P i j → R i j)
      → ((i j : ℕ) → Q i j → R i j)
      → Collects judged P s t
      → Collects judged Q t u
      → Collects judged R s u
  Collects-then splits left right first second = record {
    keeps = λ c i. second.keeps c (first.keeps c i);
    complete = λ i j c r e. elim (splits i j r) [
      | inl p ↦ second.keeps c (first.complete i j c p e)
      | inr q ↦ second.complete i j c q e
    ];
    sound = λ c i. elim (second.sound c i) [
      | inl m ↦ elim (first.sound c m) [
        | inl l ↦ inl l
        | inr (i, j, p, e) ↦ inr (i, j, left i j p, e)
      ]
      | inr (i, j, q, e) ↦ inr (i, j, right i j q, e)
    ];
  }

  pub Collects-note_item :
      (i j : ℕ) (item : Item) (s : Search)
      → judged i j ≡ ok item
      → Collects judged (λ k l. (k ≡ i) × (l ≡ j)) s (note_item i j item s)
  unfolding note_item
  Collects-note_item i j empty_partition s e = record {
    keeps = λ c m. m;
    complete = λ k l c p h. cc;
    sound = λ c m. inl m;
  }
  Collects-note_item i j (hard_constraint_violation d) s e = record {
    keeps = λ c m. m;
    complete = λ k l c p h. cc;
    sound = λ c m. inl m;
  }
  Collects-note_item i j (valid d) s e = record {
    keeps = λ c m. In-append_left (d ∷ []) m;
    complete = λ k l c p h. let same : c ≡ d = cc in rw same (In-append_right s.candidates here);
    sound = λ c m. elim (In-append s.candidates m) [
      | inl old ↦ inl old
      | inr new ↦ elim (In-cons new) [
        | inl same ↦ inr (i, j, (refl, refl), rw same e)
        | inr none_left ↦ elim none_left [ ]
      ]
    ];
  }

  pub search_tests-Collects :
      (i : ℕ) (js : List ℕ) (s t : Search)
      → search_tests judged i js s ≡ ok t
      → Collects judged (λ k l. (k ≡ i) × In l js × (k ≢ l)) s t
  unfolding search_tests
  search_tests-Collects i [] s t h = rw (← ok-injective h) (Collects-none s (λ k l p. elim p.1 [ ]))
  search_tests-Collects i (j ∷ js) s t h = elim (Bool-cases (eqb i j)) [
    | inl same ↦
        let rest : search_tests judged i js s ≡ ok t = rw same at h in
        Collects-then {P = λ k l. ⊥}
          (λ k l p. elim (In-cons p.1) [
            | inl e ↦ absurd (p.2 (ground (arith, p.0, e, same)))
            | inr deep ↦ inr (p.0, deep, p.2)
          ])
          (λ k l p. absurd p) (λ k l q. (q.0, there q.1, q.2)) (Collects-none s (λ k l p. p))
          (search_tests-Collects i js s t rest)
    | inr differ ↦
        let step : (judged i j >>= (λ item. ok (note_item i j item s)) >>= search_tests judged i js)
            ≡ ok t =
          rw differ at h in
        let (u, first, rest) = >>=-eq-ok _ _ step in
        let (item, made, noted) = >>=-eq-ok (judged i j) _ first in
        Collects-then {P = λ k l. (k ≡ i) × (l ≡ j)}
          (λ k l p. elim (In-cons p.1) [ inl e ↦ inl (p.0, e) | inr deep ↦ inr (p.0, deep, p.2) ])
          (λ k l p. (p.0, rw p.1 here, ground (arith, p.0, p.1, differ)))
          (λ k l q. (q.0, there q.1, q.2))
          (rw (← ok-injective noted) (Collects-note_item i j item s made))
          (search_tests-Collects i js u t rest)
  ]

  pub search_folds-Collects :
      (is_ js : List ℕ) (s t : Search)
      → search_folds judged is_ js s ≡ ok t
      → Collects judged (λ k l. In k is_ × In l js × (k ≢ l)) s t
  unfolding search_folds
  search_folds-Collects [] js s t h =
      rw (← ok-injective h) (Collects-none s (λ k l p. elim p.0 [ ]))
  search_folds-Collects (i ∷ is_) js s t h =
      let (u, first, rest) = >>=-eq-ok _ _ h in
      Collects-then {P = λ k l. (k ≡ i) × In l js × (k ≢ l)}
        (λ k l p. elim (In-cons p.0) [
          | inl e ↦ inl (e, p.1, p.2)
          | inr deep ↦ inr (deep, p.1, p.2)
        ])
        (λ k l p. (rw p.0 here, p.1, p.2)) (λ k l q. (there q.0, q.1, q.2))
        (search_tests-Collects i js s u first) (search_folds-Collects is_ js u t rest)

-- `range(start, start + n)` has these numbers.
pub In-range_from : (start n i : ℕ) → start ≤ i → i < start + n → In i (range_from start n)
unfolding range_from
In-range_from start zero i lo hi = absurd (omega arith)
In-range_from start (suc n) i lo hi = elim (Bool-cases (eqb i start)) [
  | inl e ↦ rw (eqb-eq i start e) here
  | inr e ↦ there (In-range_from (start + 1) n i (ground arith) (omega arith))
]
  where
    eqb-eq : (a b : ℕ) → eqb a b ≡ true → a ≡ b
    eqb-eq a b e = ground arith

pub range_from_bound : (start n i : ℕ) → In i (range_from start n) → i < start + n
unfolding range_from
range_from_bound start zero i m = elim m [ ]
range_from_bound start (suc n) i m = elim (In-cons m) [
  | inl e ↦ omega arith
  | inr deep ↦ let h = range_from_bound (start + 1) n i deep in omega arith
]
