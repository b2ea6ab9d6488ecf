-- ===== src/Split/Select/Order.antt =====
-- The order of the candidates' keys, and the minimum that Python's `min` finds.
use schema_guard.Base.{
  ℕ, Bool, true, false, ◌||◌, ◌&&◌, if◌then◌else◌, ltb, eqb, List, [], ◌∷◌, ◌≡◌, refl, sym, subst,
  arith, In, here, there, In-cons, Bool-cases, inl, inr, ◌⊎◌,
}
use schema_guard.Split.Config.{same_numbers}
use schema_guard.Split.Candidate.{Selection, SortKey}
use schema_guard.Split.Select.{precedes, key_precedes, least}

same_numbers-eq : (xs ys : List ℕ) → same_numbers xs ys ≡ true → xs ≡ ys
same_numbers-eq [] [] h = refl
same_numbers-eq [] (y ∷ ys) h = cc
same_numbers-eq (x ∷ xs) [] h = cc
same_numbers-eq (x ∷ xs) (y ∷ ys) h = ground (arith, same_numbers-eq xs ys)

same_numbers_refl : (xs : List ℕ) → same_numbers xs xs ≡ true
same_numbers_refl [] = refl
same_numbers_refl (x ∷ xs) = ground (arith, same_numbers_refl xs)

-- One place of a tuple: the order is decided there or by the places after it.
pub place_trans :
    (x y z : ℕ) (p q r : Bool)
    → (p ≡ true → q ≡ true → r ≡ true)
    → (ltb x y || eqb x y && p) ≡ true
    → (ltb y z || eqb y z && q) ≡ true
    → (ltb x z || eqb x z && r) ≡ true
place_trans x y z p q r step h k = ground arith

pub place_irrefl : (x : ℕ) (p : Bool) → p ≡ false → (ltb x x || eqb x x && p) ≡ false
place_irrefl x p h = ground arith

pub precedes_trans :
    (xs ys zs : List ℕ) → precedes xs ys ≡ true → precedes ys zs ≡ true → precedes xs zs ≡ true
unfolding precedes
precedes_trans [] [] zs h k = cc
precedes_trans [] (y ∷ ys) [] h k = cc
precedes_trans [] (y ∷ ys) (z ∷ zs) h k = refl
precedes_trans (x ∷ xs) [] zs h k = cc
precedes_trans (x ∷ xs) (y ∷ ys) [] h k = cc
precedes_trans (x ∷ xs) (y ∷ ys) (z ∷ zs) h k =
    place_trans x y z (precedes xs ys) (precedes ys zs) (precedes xs zs) (precedes_trans xs ys zs) h
      k

pub precedes_irrefl : (xs : List ℕ) → precedes xs xs ≡ false
unfolding precedes
precedes_irrefl [] = refl
precedes_irrefl (x ∷ xs) = place_irrefl x (precedes xs xs) (precedes_irrefl xs)

-- The train folds are a place of their own.
folds_trans :
    (xs ys zs : List ℕ) (p q r : Bool)
    → (p ≡ true → q ≡ true → r ≡ true)
    → (precedes xs ys || same_numbers xs ys && p) ≡ true
    → (precedes ys zs || same_numbers ys zs && q) ≡ true
    → (precedes xs zs || same_numbers xs zs && r) ≡ true
folds_trans xs ys zs p q r step h k = ground (
  arith,
  same_numbers-eq xs ys,
  same_numbers-eq ys zs,
  precedes_trans xs ys zs,
  same_numbers_refl xs,
)

pub key_precedes_trans :
    (k l m : SortKey) → key_precedes k l ≡ true → key_precedes l m ≡ true → key_precedes k m ≡ true
unfolding key_precedes
key_precedes_trans k l m = place_trans k.size_score l.size_score m.size_score _ _ _ (
    place_trans k.class_score l.class_score m.class_score _ _ _ (
      folds_trans k.train_folds l.train_folds m.train_folds _ _ _ (
        place_trans k.calibration_fold l.calibration_fold m.calibration_fold _ _ _
          (λ h j. ground arith))))

pub key_precedes_irrefl : (k : SortKey) → key_precedes k k ≡ false
unfolding key_precedes
key_precedes_irrefl k =
    place_irrefl k.size_score _
      (place_irrefl k.class_score _ (ground (arith, precedes_irrefl k.train_folds)))

-- No key of the list precedes that of the selection.
unfoldable pub IsLeast : Selection → List Selection → Type 0
IsLeast m cs = (c : Selection) → In c cs → key_precedes c.sort_key m.sort_key ≡ false

pub not_precedes :
    (k l m : SortKey)
    → key_precedes l m ≡ true
    → key_precedes k m ≡ false
    → key_precedes k l ≡ false
not_precedes k l m h j = ground (arith, key_precedes_trans k l m)

-- The minimum stands in the list and is not preceded by what it was compared with.
pub least-In : (m : Selection) (cs : List Selection) → (least m cs ≡ m) ⊎ In (least m cs) cs
unfolding least
least-In m [] = inl refl
least-In m (c ∷ cs) = elim (Bool-cases (key_precedes c.sort_key m.sort_key)) [
  | inl e ↦
      rw e (elim (least-In c cs) [ inl same ↦ inr (rw same here) | inr deep ↦ inr (there deep) ])
  | inr e ↦ rw e (elim (least-In m cs) [ inl same ↦ inl same | inr deep ↦ inr (there deep) ])
]

least-cons :
    (m c : Selection) (cs : List Selection) (b : Bool)
    → key_precedes c.sort_key m.sort_key ≡ b
    → least m (c ∷ cs) ≡ least (if b then c else m) cs
unfolding least
least-cons m c cs b e = rw e refl

pub least-not_above :
    (k : SortKey) (m : Selection) (cs : List Selection)
    → key_precedes k m.sort_key ≡ false
    → key_precedes k (least m cs).sort_key ≡ false
unfolding least
least-not_above k m [] h = h
least-not_above k m (c ∷ cs) h = elim (Bool-cases (key_precedes c.sort_key m.sort_key)) [
  | inl e ↦
      subst (λ (s : Selection). key_precedes k s.sort_key ≡ false) (sym (least-cons m c cs true e))
        (least-not_above k c cs (not_precedes k c.sort_key m.sort_key e h))
  | inr e ↦
      subst (λ (s : Selection). key_precedes k s.sort_key ≡ false) (sym (least-cons m c cs false e))
        (least-not_above k m cs h)
]

least_not_later :
    (m : Selection) (cs : List Selection) (c : Selection)
    → In c cs
    → key_precedes c.sort_key (least m cs).sort_key ≡ false
unfolding least
least_not_later m [] c i = elim i [ ]
least_not_later m (d ∷ cs) c i = elim (In-cons i) [
  | inl e ↦ rw e (elim (Bool-cases (key_precedes d.sort_key m.sort_key)) [
    | inl t ↦
        subst (λ (s : Selection). key_precedes d.sort_key s.sort_key ≡ false)
          (sym (least-cons m d cs true t))
          (least-not_above d.sort_key d cs (key_precedes_irrefl d.sort_key))
    | inr t ↦
        subst (λ (s : Selection). key_precedes d.sort_key s.sort_key ≡ false)
          (sym (least-cons m d cs false t)) (least-not_above d.sort_key m cs t)
  ])
  | inr deep ↦ least_not_later (if key_precedes d.sort_key m.sort_key then d else m) cs c deep
]

-- Python's `min` over a list that is not empty.
pub least-IsLeast : (m : Selection) (cs : List Selection) → IsLeast (least m cs) (m ∷ cs)
unfolding IsLeast
least-IsLeast m cs c i = elim (In-cons i) [
  | inl e ↦ least-not_above c.sort_key m cs (rw e (key_precedes_irrefl m.sort_key))
  | inr deep ↦ least_not_later m cs c deep
]
