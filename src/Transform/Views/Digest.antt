-- ===== src/Transform/Views/Digest.antt =====
-- The order of columns by digest: `selected_columns` of transformations/base.py. The SHA-256 digest
-- of a text, in hexadecimal, is an argument.
use Prim.Native.String.{◌++◌ as ◌+++◌}
use schema_guard.Base.{
  ℕ, zero, suc, Bool, ◌&&◌, ◌||◌, not, if◌then◌else◌, ◌==◌, List, [], ◌∷◌, map, String, ◌≡◌, In,
  here, there, In-cons, Bool-cases, inl, inr, ◌⊎◌,
}
use schema_guard.Hashing.{text_le}

-- The order of pairs of texts.
unfoldable pub pair_le : String × String → String × String → Bool
pair_le (d, c) (e, k) = text_le d e && (not (d == e) || text_le c k)

unfoldable pub insert_pair : String × String → List (String × String) → List (String × String)
insert_pair p [] = p ∷ []
insert_pair p (q ∷ qs) = if pair_le p q then p ∷ q ∷ qs else q ∷ insert_pair p qs

-- `sorted(pairs)`
unfoldable pub sort_pairs : List (String × String) → List (String × String)
sort_pairs [] = []
sort_pairs (p ∷ ps) = insert_pair p (sort_pairs ps)

-- `names[:limit]`
abbrev pub first_names : ℕ → List String → List String
first_names zero cs = []
first_names (suc n) [] = []
first_names (suc n) (c ∷ cs) = c ∷ first_names n cs

module _ (sha256 : String → String) where
  -- `[column for _, column in sorted((sha256(f"{dataset_id}|{seed}|{column}{mark}"), column) ...)]`
  unfoldable pub by_digest : String → String → String → List String → List String
  by_digest dataset_id seed mark cs =
      map (λ p. p.1)
        (sort_pairs
          (map (λ c. (sha256 (dataset_id +++ "|" +++ seed +++ "|" +++ c +++ mark), c)) cs))

  unfoldable pub selected_columns : List String → String → String → ℕ → List String
  selected_columns candidates dataset_id seed limit =
      first_names limit (by_digest dataset_id seed "" candidates)

In-insert_pair :
    (p q : String × String) (qs : List (String × String))
    → (p ≡ q) ⊎ In p qs
    → In p (insert_pair q qs)
unfolding insert_pair
In-insert_pair p q [] (inl e) = rw e here
In-insert_pair p q [] (inr i) = elim i [ ]
In-insert_pair p q (r ∷ qs) h = elim (Bool-cases (pair_le q r)) [
  | inl e ↦ rw e (elim h [ inl same ↦ rw same here | inr i ↦ there i ])
  | inr e ↦ rw e (elim h [
    | inl same ↦ there (In-insert_pair p q qs (inl same))
    | inr i ↦ elim (In-cons i) [
      | inl first ↦ rw first here
      | inr deep ↦ there (In-insert_pair p q qs (inr deep))
    ]
  ])
]

In-sort_pairs : (p : String × String) (ps : List (String × String)) → In p ps → In p (sort_pairs ps)
unfolding sort_pairs
In-sort_pairs p [] i = i
In-sort_pairs p (q ∷ qs) i = elim (In-cons i) [
  | inl same ↦ In-insert_pair p q (sort_pairs qs) (inl same)
  | inr deep ↦ In-insert_pair p q (sort_pairs qs) (inr (In-sort_pairs p qs deep))
]

In-map {ℓ κ} :
    {A : Type ℓ} {B : Type κ} (f : A → B) {a : A} {xs : List A} → In a xs → In (f a) (map f xs)
In-map f here = here
In-map f (there i) = there (In-map f i)

-- The order by digest loses no column.
pub In-by_digest :
    (sha256 : String → String) (dataset_id seed mark : String) (c : String) (cs : List String)
    → In c cs
    → In c (by_digest sha256 dataset_id seed mark cs)
unfolding by_digest
In-by_digest sha256 dataset_id seed mark c cs i =
    In-map (λ (p : String × String). p.1)
      (In-sort_pairs (sha256 (dataset_id +++ "|" +++ seed +++ "|" +++ c +++ mark), c) _
        (In-map (λ (k : String). (sha256 (dataset_id +++ "|" +++ seed +++ "|" +++ k +++ mark), k))
          i))
