-- ===== src/Transform/Frame/Place.antt =====
-- Where a column stands among the columns, and what takes its place.
use schema_guard.Base.{
  ℕ, suc, ◌+◌, ◌==◌, eq_iff, some, some-injective, [], ◌∷◌, ◌++◌, length, String, false, true, ◌≡◌,
  refl, sym, subst, ap, ◌∙◌, arith, Bool-cases, inl, inr, ok, >>=-eq-ok, ok-injective, ok-ne-err,
}
use schema_guard.Base.Dict.{lookup, remove, keys, contains}
use schema_guard.Transform.Frame.{Frame, Column, distinct, insert_at, insert_checked, index_of}
use schema_guard.Transform.Frame.Insert.{remove_absent}

-- The frame is split at a column, whose removal leaves the two parts.
abbrev pub IsSplit : String → Column → ℕ → Frame → Type 0
IsSplit name column position f =
    (before after : Frame) × (length before ≡ position)
    × (f ≡ before ++ ((name, column) ∷ after))
    × (remove name f ≡ before ++ after)

module _ (name j : String) (column w : Column) (f : Frame) where
  cons-IsSplit_here :
      (n : ℕ)
      → distinct (keys ((j, w) ∷ f)) ≡ true
      → (j == name) ≡ true
      → ok 0 ≡ ok n
      → some w ≡ some column
      → IsSplit name column n ((j, w) ∷ f)
  unfolding distinct remove
  cons-IsSplit_here n d e i l =
      let same : j ≡ name = ground (arith, eq_iff j name, e) in
      let fresh : contains name (keys f) ≡ false =
        subst (λ k. contains k (keys f) ≡ false) same (ground (arith, d)) in
      (
        [],
        f,
        ok-injective i,
        ap (λ (k : String). (k, w) ∷ f) same ∙ ap (λ v. (name, v) ∷ f) (some-injective l),
        rw e (remove_absent name f fresh),
      )

  cons-IsSplit_later :
      (m n : ℕ)
      → (j == name) ≡ false
      → ok (suc m) ≡ ok n
      → IsSplit name column m f
      → IsSplit name column n ((j, w) ∷ f)
  unfolding remove
  cons-IsSplit_later m n e i (before, after, at, whole, rest) = (
    (j, w) ∷ before,
    after,
    ap suc at ∙ ok-injective i,
    ap (◌∷◌ (j, w)) whole,
    rw e (ap (◌∷◌ (j, w)) rest),
  )

pub index_of-IsSplit :
    (name : String) (column : Column) (n : ℕ) (f : Frame)
    → distinct (keys f) ≡ true
    → index_of name (keys f) ≡ ok n
    → lookup name f ≡ some column
    → IsSplit name column n f
unfolding distinct index_of lookup
index_of-IsSplit name column n [] d i l = absurd (cc)
index_of-IsSplit name column n ((j, w) ∷ f) d i l = elim (Bool-cases (j == name)) [
  | inl e ↦ cons-IsSplit_here name j column w f n d e (rw e at i) (rw e at l)
  | inr e ↦
      let (m, at, same) = >>=-eq-ok (index_of name (keys f)) (λ k. ok (suc k)) (rw e at i) in
      cons-IsSplit_later name j column w f m n e same
        (index_of-IsSplit name column m f (ground (arith, d)) at (rw e at l))
]

pub insert_at-checked :
    (position : ℕ) (name : String) (column : Column) (f g : Frame)
    → insert_at position name column f ≡ ok g
    → insert_checked position name column f ≡ ok g
unfolding insert_at
insert_at-checked position name column f g h = elim (Bool-cases (contains name (keys f))) [
  | inl e ↦ absurd (ok-ne-err (sym (rw e at h)))
  | inr e ↦ rw e at h
]

insert_checked-length :
    (name : String) (column : Column) (before after : Frame)
    → insert_checked (length before) name column (before ++ after)
      ≡ ok (before ++ ((name, column) ∷ after))
unfolding insert_checked
insert_checked-length name column [] after = refl
insert_checked-length name column (c ∷ before) after =
    rw (insert_checked-length name column before after) refl

insert_checked-next :
    (name : String) (column : Column) (next : String × Column) (before after : Frame)
    → insert_checked (suc (length before)) name column (before ++ (next ∷ after))
      ≡ ok (before ++ (next ∷ (name, column) ∷ after))
unfolding insert_checked
insert_checked-next name column next [] after = refl
insert_checked-next name column next (c ∷ before) after =
    rw (insert_checked-next name column next before after) refl

-- Two columns that are inserted where a removed one stood stand in its place.
pub replaced :
    (name first second : String) (column left right : Column) (n : ℕ) (f one g : Frame)
    → IsSplit name column n f
    → insert_at n first left (remove name f) ≡ ok one
    → insert_at (n + 1) second right one ≡ ok g
    → (before after : Frame) × (f ≡ before ++ ((name, column) ∷ after))
      × (g ≡ before ++ ((first, left) ∷ (second, right) ∷ after))
replaced name first second column left right n f one g (before, after, at, whole, rest) h k =
    let is_one : one ≡ before ++ ((first, left) ∷ after) = ok-injective (
      sym (insert_at-checked n first left (remove name f) one h)
      ∙ ap (λ x. insert_checked x first left (remove name f)) (sym at)
      ∙ ap (insert_checked (length before) first left) rest
      ∙ insert_checked-length first left before after) in
    let next : n + 1 ≡ suc (length before) = omega (arith, at) in
    let is_g : g ≡ before ++ ((first, left) ∷ (second, right) ∷ after) = ok-injective (
      sym (insert_at-checked (n + 1) second right one g k)
      ∙ ap (λ x. insert_checked x second right one) next
      ∙ ap (insert_checked (suc (length before)) second right) is_one
      ∙ insert_checked-next second right (first, left) before after) in
    (before, after, whole, is_g)
