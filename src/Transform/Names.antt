-- ===== src/Transform/Names.antt =====
-- The names of generated columns: `collision_safe_name` of transformations/base.py. The loop has
-- fuel, and one round more than there are names is enough.
use Prim.Native.String.{◌++◌ as ◌+++◌}
use text.Mathlib.TextLemmas.{append_cancel_left, append-nil, cons-append, cons-ne-nil}
use schema_guard.Base.{
  ℕ, zero, suc, ◌<◌, ◌≤◌, true, false, if◌then◌else◌, ◌==◌, eq_iff, Option, none, some,
  some-injective, List, [], ◌∷◌, length, String, ◌≡◌, ◌≢◌, refl, sym, ◌∙◌, arith, Bool-cases, inl,
  inr,
}
use schema_guard.Base.Dict.{contains}
use schema_guard.Base.Decimal.{decimal, decimal-injective}

-- `f"{base}__sg_generated_{suffix}"`
unfoldable pub generated_name : String → ℕ → String
generated_name base suffix = base +++ "__sg_generated_" +++ decimal suffix

-- `while candidate in existing`, after which the suffix grows.
unfoldable pub search_name : ℕ → String → List String → String → ℕ → Option String
search_name zero base existing candidate suffix = none
search_name (suc fuel) base existing candidate suffix =
    let rest = search_name fuel base existing (generated_name base suffix) (suc suffix) in
    if contains candidate existing then rest else some candidate

unfoldable pub collision_safe_name : String → List String → Option String
collision_safe_name base existing = search_name (suc (length existing)) base existing base 1

-- The list without a name.
without : String → List String → List String
without k [] = []
without k (j ∷ js) = let rest = without k js in if j == k then rest else j ∷ rest

contains-without :
    (k j : String) (js : List String) → k ≢ j → contains j (without k js) ≡ contains j js
unfolding contains without
contains-without k j [] differ = refl
contains-without k j (i ∷ js) differ =
    ground (arith, eq_iff i k, eq_iff i j, contains-without k j js differ)

length-without : (k : String) (js : List String) → length (without k js) ≤ length js
unfolding without
length-without k [] = omega arith
length-without k (j ∷ js) = ground (arith, length-without k js)

length-without_lt :
    (k : String) (js : List String) → contains k js ≡ true → length (without k js) < length js
unfolding contains without
length-without_lt k [] h = cc
length-without_lt k (j ∷ js) h = ground (arith, length-without k js, length-without_lt k js)

-- The candidate of each round: the base, then the generated names.
nth_name : String → ℕ → String
nth_name base zero = base
nth_name base (suc n) = generated_name base (suc n)

base-ne-generated_name : (base : String) (n : ℕ) → base ≢ generated_name base n
unfolding generated_name
base-ne-generated_name base n e = marker_ne_nil (
    append_cancel_left base ("__sg_generated_" +++ decimal n) String.[]
      (sym e ∙ sym (append-nil base)))
  where
    marker_ne_nil : "__sg_generated_" +++ decimal n ≢ String.[]
    marker_ne_nil h = absurd (cons-ne-nil _ _ (sym (cons-append _ _ _) ∙ h))

generated_name-injective :
    (base : String) (m n : ℕ) → generated_name base m ≡ generated_name base n → m ≡ n
unfolding generated_name
generated_name-injective base m n e = decimal-injective m n (
    append_cancel_left "__sg_generated_" (decimal m) (decimal n) (
      append_cancel_left base ("__sg_generated_" +++ decimal m) ("__sg_generated_" +++ decimal n)
        e))

nth_name-ne : (base : String) (r n : ℕ) → r < n → nth_name base r ≢ generated_name base n
unfolding nth_name
nth_name-ne base zero n h e = base-ne-generated_name base n e
nth_name-ne base (suc r) n h e =
    let same = generated_name-injective base (suc r) n e in omega (arith, h, same)

-- Two lists that agree on the names to come give the same search.
search_name_agrees :
    (fuel : ℕ) (base : String) (xs ys : List String) (candidate : String) (suffix : ℕ)
    → contains candidate xs ≡ contains candidate ys
    → ((n : ℕ)
        → suffix ≤ n
        → contains (generated_name base n) xs ≡ contains (generated_name base n) ys)
    → search_name fuel base xs candidate suffix ≡ search_name fuel base ys candidate suffix
unfolding search_name
search_name_agrees zero base xs ys candidate suffix now later = refl
search_name_agrees (suc fuel) base xs ys candidate suffix now later = ground (
  arith,
  now,
  search_name_agrees fuel base xs ys (generated_name base suffix) (suc suffix)
      (later suffix (omega arith)) (λ n h. later n (omega (arith, h))),
)

search_name_fresh :
    (fuel : ℕ) (base : String) (existing : List String) (candidate : String) (suffix : ℕ)
    (name : String)
    → search_name fuel base existing candidate suffix ≡ some name
    → contains name existing ≡ false
unfolding search_name
search_name_fresh zero base existing candidate suffix name h = cc
search_name_fresh (suc fuel) base existing candidate suffix name h =
    elim (Bool-cases (contains candidate existing)) [
      | inl e ↦
          search_name_fresh fuel base existing (generated_name base suffix) (suc suffix) name
            (rw e at h)
      | inr e ↦ let same : some candidate ≡ some name = rw e at h in rw (← some-injective same) e
    ]

search_name_ends :
    (fuel : ℕ) (base : String) (existing : List String) (r : ℕ)
    → length existing < fuel
    → (name : String) × (search_name fuel base existing (nth_name base r) (suc r) ≡ some name)
unfolding search_name nth_name
search_name_ends zero base existing r h = absurd (omega arith)
search_name_ends (suc fuel) base existing r h =
    elim (Bool-cases (contains (nth_name base r) existing)) [
      | inl e ↦
          let fewer = without (nth_name base r) existing in
          let (name, later) =
            search_name_ends fuel base fewer (suc r)
              (omega (arith, length-without_lt (nth_name base r) existing e, h)) in
          let agrees =
            search_name_agrees fuel base existing fewer (generated_name base (suc r)) (suc (suc r))
              (sym (
                contains-without (nth_name base r) _ existing
                  (nth_name-ne base r (suc r) (omega arith))))
              (λ n b. sym (
                contains-without (nth_name base r) _ existing
                  (nth_name-ne base r n (omega (arith, b))))) in
          (name, rw e (agrees ∙ later))
      | inr e ↦ (nth_name base r, rw e refl)
    ]

-- The loop ends, with a name that does not exist yet, whatever the base and the existing names are.
pub collision_safe_name_fresh :
    (base : String) (existing : List String)
    → (name : String) × (collision_safe_name base existing ≡ some name)
      × (contains name existing ≡ false)
unfolding collision_safe_name nth_name
collision_safe_name_fresh base existing =
    let (name, found_name) =
      search_name_ends (suc (length existing)) base existing 0 (omega arith) in
    (
      name,
      found_name,
      search_name_fresh (suc (length existing)) base existing base 1 name found_name,
    )
