-- ===== src/Transform/Frame/Select.antt =====
-- When a selection of columns gives a frame back.
use schema_guard.Base.{
  true, false, ◌==◌, eq_iff, eq_refl, some, List, [], ◌∷◌, String, ◌≡◌, refl, sym, ap, ◌∙◌, inl,
  inr, arith, In, here, there, In-cons, Bool-cases, ok, found, >>=-eq-ok, ok-injective,
}
use schema_guard.Base.Dict.{lookup, keys, contains}
use schema_guard.Split.Counts.{found-eq-ok}
use schema_guard.Transform.Frame.{Frame, Column, distinct, select}

pub In-contains : {c : String} {cs : List String} → In c cs → contains c cs ≡ true
unfolding contains
In-contains {c} here = ground (arith, eq_refl c)
In-contains (there i) = ground (arith, In-contains i)

pub contains-In : (c : String) (cs : List String) → contains c cs ≡ true → In c cs
unfolding contains
contains-In c [] h = absurd (cc)
contains-In c (j ∷ cs) h = elim (Bool-cases (j == c)) [
  | inl e ↦ let same : j ≡ c = ground (arith, eq_iff j c) in rw same here
  | inr e ↦ there (contains-In c cs (ground arith))
]

lookup-keys :
    (c : String) (f : Frame) → contains c (keys f) ≡ true → (v : Column) × (lookup c f ≡ some v)
unfolding contains lookup
lookup-keys c [] h = absurd (cc)
lookup-keys c ((j, v) ∷ f) h = elim (Bool-cases (j == c)) [
  | inl e ↦ (v, rw e refl)
  | inr e ↦ rw e (lookup-keys c f (ground arith))
]

lookup_head : (c : String) (v : Column) (f : Frame) → lookup c ((c, v) ∷ f) ≡ some v
unfolding lookup
lookup_head c v f = ground (arith, eq_refl c)

lookup_later :
    (c k : String) (v : Column) (f : Frame)
    → contains c (keys f) ≡ false
    → In k (keys f)
    → lookup k ((c, v) ∷ f) ≡ lookup k f
unfolding lookup
lookup_later c k v f fresh i = ground (arith, eq_iff c k, fresh, In-contains i)

-- Selecting its own names from a frame that agrees with it on them gives the frame.
pub select_agreeing :
    (f g : Frame)
    → distinct (keys f) ≡ true
    → ((c : String) → In c (keys f) → lookup c g ≡ lookup c f)
    → select (keys f) g ≡ ok f
unfolding distinct select
select_agreeing [] g d h = refl
select_agreeing ((c, v) ∷ f) g d h =
    let first : lookup c g ≡ some v = h c here ∙ lookup_head c v f in
    let fresh : contains c (keys f) ≡ false = ground (arith, d) in
    let later =
      select_agreeing f g (ground (arith, d))
        (λ k i. h k (there i) ∙ lookup_later c k v f fresh i) in
    rw first (rw later refl)

select-cons :
    (k : String) (cs : List String) (f g : Frame)
    → select (k ∷ cs) f ≡ ok g
    → (v : Column) × (tail : Frame) × (lookup k f ≡ some v)
      × (select cs f ≡ ok tail)
      × (((k, v) ∷ tail) ≡ g)
unfolding select
select-cons k cs f g h =
    let (v, first, rest) = >>=-eq-ok (found (lookup k f)) _ h in
    let (tail, selected, made) = >>=-eq-ok (select cs f) _ rest in
    (v, tail, found-eq-ok (lookup k f) first, selected, ok-injective made)

-- What is selected is what was there.
pub lookup-select :
    (cs : List String) (f g : Frame) (c : String)
    → select cs f ≡ ok g
    → In c cs
    → lookup c g ≡ lookup c f
unfolding lookup
lookup-select [] f g c h i = elim i [ ]
lookup-select (k ∷ cs) f g c h i =
    let (v, tail, is_v, selected, made) = select-cons k cs f g h in
    let core : lookup c ((k, v) ∷ tail) ≡ lookup c f = elim (Bool-cases (k == c)) [
      | inl e ↦
          let same : k ≡ c = ground (arith, eq_iff k c) in
          rw e (sym is_v ∙ ap (λ x. lookup x f) same)
      | inr e ↦ rw e (elim (In-cons i) [
        | inl same ↦ absurd (ground (arith, e, same, eq_iff k c))
        | inr deep ↦ lookup-select cs f tail c selected deep
      ])
    ] in
    ap (lookup c) (sym made) ∙ core

-- A selection that returns has the selected names, in the order of the selection.
pub keys-select : (cs : List String) (f g : Frame) → select cs f ≡ ok g → keys g ≡ cs
unfolding select
keys-select [] f g h = ap keys (sym (ok-injective h))
keys-select (c ∷ cs) f g h =
    let (v, tail, is_v, selected, made) = select-cons c cs f g h in
    ap keys (sym made) ∙ ap (◌∷◌ c) (keys-select cs f tail selected)
