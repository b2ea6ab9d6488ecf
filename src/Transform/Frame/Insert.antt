-- ===== src/Transform/Frame/Insert.antt =====
-- Inserting a column at a position and taking it out again: `insert` and `drop` of a data frame.
use schema_guard.Base.{
  ℕ, zero, suc, true, false, ◌==◌, eq_iff, eq_refl, some, some-injective, List, [], ◌∷◌, String,
  ◌≡◌, refl, sym, subst, ap, ◌∙◌, arith, Bool-cases, inl, inr, ok, >>=-eq-ok, ok-injective,
  ok-ne-err,
}
use schema_guard.Base.Dict.{lookup, remove, keys, contains}
use schema_guard.Transform.Frame.{Frame, Column, distinct, insert_at, insert_checked, index_of}

pub remove_absent : (c : String) (f : Frame) → contains c (keys f) ≡ false → remove c f ≡ f
unfolding contains remove
remove_absent c [] h = refl
remove_absent c ((j, w) ∷ f) h =
    let differ : (j == c) ≡ false = ground (arith, h) in
    rw differ (ap (◌∷◌ (j, w)) (remove_absent c f (ground (arith, h))))

pub keys-remove : (c : String) (f : Frame) → contains c (keys (remove c f)) ≡ false
unfolding contains remove
keys-remove c [] = refl
keys-remove c ((j, w) ∷ f) = elim (Bool-cases (j == c)) [
  | inl e ↦ rw e (keys-remove c f)
  | inr e ↦ rw e (rw e (keys-remove c f))
]

remove-nil : (c : String) → remove {V = Column} c [] ≡ []
unfolding remove
remove-nil c = refl

remove_this :
    (c j : String) (w : Column) (f : Frame) → (j == c) ≡ true → remove c ((j, w) ∷ f) ≡ remove c f
unfolding remove
remove_this c j w f e = rw e refl

remove_other :
    (c j : String) (w : Column) (f : Frame)
    → (j == c) ≡ false
    → remove c ((j, w) ∷ f) ≡ (j, w) ∷ remove c f
unfolding remove
remove_other c j w f e = rw e refl

pub remove_comm : (b c : String) (f : Frame) → remove b (remove c f) ≡ remove c (remove b f)
remove_comm b c [] = simp (remove-nil b, remove-nil c) refl
remove_comm b c ((j, w) ∷ f) = elim (Bool-cases (j == b)) [
  | inl e ↦ elim (Bool-cases (j == c)) [
    | inl k ↦ rw (remove_this c j w f k, remove_this b j w f e) (remove_comm b c f)
    | inr k ↦
        rw (remove_other c j w f k, remove_this b j w f e, remove_this b j w (remove c f) e)
          (remove_comm b c f)
  ]
  | inr e ↦ elim (Bool-cases (j == c)) [
    | inl k ↦
        rw (remove_this c j w f k, remove_other b j w f e, remove_this c j w (remove b f) k)
          (remove_comm b c f)
    | inr k ↦
        rw
          (
            remove_other c j w f k,
            remove_other b j w f e,
            remove_other c j w (remove b f) k,
            remove_other b j w (remove c f) e,
          )
          (ap (◌∷◌ (j, w)) (remove_comm b c f))
  ]
]

head_fresh :
    (name c : String) (cs : List String) → contains name (c ∷ cs) ≡ false → (c == name) ≡ false
unfolding contains
head_fresh name c cs h = ground (arith, h)

tail_fresh :
    (name c : String) (cs : List String) → contains name (c ∷ cs) ≡ false → contains name cs ≡ false
unfolding contains
tail_fresh name c cs h = ground (arith, h)

-- What is inserted comes out again, and the rest is as before.
remove-insert_checked :
    (position : ℕ) (name : String) (column : Column) (f g : Frame)
    → contains name (keys f) ≡ false
    → insert_checked position name column f ≡ ok g
    → (remove name g ≡ f) × (lookup name g ≡ some column)
unfolding insert_checked remove lookup
remove-insert_checked zero name column f g fresh h =
    subst (λ k. (remove name k ≡ f) × (lookup name k ≡ some column)) (ok-injective h)
      (rw (eq_refl name) (remove_absent name f fresh), rw (eq_refl name) refl)
remove-insert_checked (suc position) name column [] g fresh h = absurd (ok-ne-err (sym h))
remove-insert_checked (suc position) name column ((c, other) ∷ f) g fresh h =
    let (rest, inner, made) = >>=-eq-ok (insert_checked position name column f) _ h in
    let (same, looked) =
      remove-insert_checked position name column f rest (tail_fresh name c (keys f) fresh) inner in
    let differ = head_fresh name c (keys f) fresh in
    subst (λ k. (remove name k ≡ (c, other) ∷ f) × (lookup name k ≡ some column))
      (ok-injective made) (rw differ (ap (◌∷◌ (c, other)) same), rw differ looked)

pub remove-insert_at :
    (position : ℕ) (name : String) (column : Column) (f g : Frame)
    → insert_at position name column f ≡ ok g
    → (remove name g ≡ f) × (lookup name g ≡ some column)
unfolding insert_at
remove-insert_at position name column f g h = elim (Bool-cases (contains name (keys f))) [
  | inl e ↦ absurd (ok-ne-err (sym (rw e at h)))
  | inr e ↦ remove-insert_checked position name column f g e (rw e at h)
]

module _ (name j : String) (column w : Column) (f : Frame)
    (d : distinct (keys ((j, w) ∷ f)) ≡ true) where
  reinsert_head :
      (n : ℕ)
      → (j == name) ≡ true
      → ok 0 ≡ ok n
      → some w ≡ some column
      → insert_checked n name column (remove name ((j, w) ∷ f)) ≡ ok ((j, w) ∷ f)
  unfolding remove insert_checked distinct
  reinsert_head n e i l =
      let same : j ≡ name = ground (arith, eq_iff j name, e) in
      let fresh : contains name (keys f) ≡ false =
        subst (λ k. contains k (keys f) ≡ false) same (ground (arith, d)) in
      rw (← ok-injective i) (
        rw e (
          rw (remove_absent name f fresh) (
            ap (λ (k : String). ok ((k, column) ∷ f)) (sym same)
            ∙ ap (λ (v : Column). ok ((j, v) ∷ f)) (sym (some-injective l)))))

  reinsert_tail :
      (m n : ℕ)
      → (j == name) ≡ false
      → ok (suc m) ≡ ok n
      → insert_checked m name column (remove name f) ≡ ok f
      → insert_checked n name column (remove name ((j, w) ∷ f)) ≡ ok ((j, w) ∷ f)
  unfolding remove insert_checked
  reinsert_tail m n e i h = rw (← ok-injective i) (rw e (rw h refl))

-- A column that is put back at its old place gives the frame.
reinsert_checked :
    (name : String) (column : Column) (n : ℕ) (f : Frame)
    → distinct (keys f) ≡ true
    → index_of name (keys f) ≡ ok n
    → lookup name f ≡ some column
    → insert_checked n name column (remove name f) ≡ ok f
unfolding distinct index_of lookup
reinsert_checked name column n [] d i l = absurd (cc)
reinsert_checked name column n ((j, w) ∷ f) d i l = elim (Bool-cases (j == name)) [
  | inl e ↦ reinsert_head name j column w f d n e (rw e at i) (rw e at l)
  | inr e ↦
      let (m, at, same) = >>=-eq-ok (index_of name (keys f)) (λ k. ok (suc k)) (rw e at i) in
      reinsert_tail name j column w f d m n e same
        (reinsert_checked name column m f (ground (arith, d)) at (rw e at l))
]

pub reinsert_at :
    (name : String) (column : Column) (n : ℕ) (f : Frame)
    → distinct (keys f) ≡ true
    → index_of name (keys f) ≡ ok n
    → lookup name f ≡ some column
    → insert_at n name column (remove name f) ≡ ok f
unfolding insert_at
reinsert_at name column n f d i l = rw (keys-remove name f) (reinsert_checked name column n f d i l)
