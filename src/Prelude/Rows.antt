-- ===== src/Prelude/Rows.antt =====
-- Tables as lists of rows: selection, search and existence by a Boolean condition.
use Prim.Native.Nat.{◌+◌, ◌≤◌}
use mathlib.Core.Path.{subst, ◌≡◌, refl, ap}
use mathlib.Core.Bool.{Bool, true, false, ◌&&◌, ◌||◌, not, false≢true}
use mathlib.Core.Option.{Option, none, some}
use mathlib.Core.List.{List, [], ◌∷◌, ◌++◌, map}
use native.Mathlib.Omega.{arith}
use mathlib.Core.Logic.{inl, inr}
use fusion_index.Prelude.Tests.{Bool-cases, if◌then◌else◌}
use fusion_index.Prelude.Lists.{length, All, All-map}

module _ {ℓ} {A : Type ℓ} where
  -- The rows that satisfy a condition, in order.
  unfoldable pub keep_if : (A → Bool) → List A → List A
  keep_if p [] = []
  keep_if p (x ∷ xs) = let rest = keep_if p xs in if p x then x ∷ rest else rest

  -- The first row that satisfies a condition.
  unfoldable pub find : (A → Bool) → List A → Option A
  find p [] = none
  find p (x ∷ xs) = if p x then some x else find p xs

  -- Whether some row satisfies a condition.
  unfoldable pub exists : (A → Bool) → List A → Bool
  exists p [] = false
  exists p (x ∷ xs) = p x || exists p xs

  -- A row that survives a selection is still the first one found.
  pub find-keep_if :
      (p q : A → Bool) (xs : List A) (x : A)
      → find p xs ≡ some x
      → q x ≡ true
      → find p (keep_if q xs) ≡ some x
  unfolding find keep_if
  find-keep_if p q [] x h k = cc
  find-keep_if p q (y ∷ xs) x h k = ground (arith, find-keep_if p q xs x)

  -- The row that is found satisfies the condition.
  pub find_holds : (p : A → Bool) (xs : List A) (x : A) → find p xs ≡ some x → p x ≡ true
  unfolding find
  find_holds p [] x h = cc
  find_holds p (y ∷ xs) x h = ground (arith, find_holds p xs x)

  -- A selection adds no row.
  pub find-keep_if-none :
      (p q : A → Bool) (xs : List A) → find p xs ≡ none → find p (keep_if q xs) ≡ none
  unfolding find keep_if
  find-keep_if-none p q [] h = refl
  find-keep_if-none p q (y ∷ xs) h = ground (arith, find-keep_if-none p q xs)

  pub exists-of_find :
      (p : A → Bool) (xs : List A) (x : A) → find p xs ≡ some x → exists p xs ≡ true
  unfolding find exists
  exists-of_find p [] x h = cc
  exists-of_find p (y ∷ xs) x h = ground (arith, exists-of_find p xs x)

  pub exists-append :
      (p : A → Bool) (xs ys : List A) → exists p (xs ++ ys) ≡ (exists p xs || exists p ys)
  unfolding exists
  exists-append p [] ys = refl
  exists-append p (x ∷ xs) ys = ground (arith, exists-append p xs ys)

  pub find-append_some :
      (p : A → Bool) (xs ys : List A) (x : A) → find p xs ≡ some x → find p (xs ++ ys) ≡ some x
  unfolding find
  find-append_some p [] ys x h = cc
  find-append_some p (y ∷ xs) ys x h = ground (arith, find-append_some p xs ys x)

  -- What all rows satisfy, the selected rows satisfy, and the condition beside it.
  pub All-keep_if {κ μ} :
      {P : A → Type κ} {Q : A → Type μ} (p : A → Bool) (f : (x : A) → P x → p x ≡ true → Q x)
      (xs : List A)
      → All P xs
      → All Q (keep_if p xs)
  unfolding keep_if
  All-keep_if p f [] h = tt
  All-keep_if p f (x ∷ xs) (h, hs) = elim (Bool-cases (p x)) [
    | inl e ↦ rw e (f x h e, All-keep_if p f xs hs)
    | inr e ↦ rw e (All-keep_if p f xs hs)
  ]

  pub length-keep_if : (p : A → Bool) (xs : List A) → length (keep_if p xs) ≤ length xs
  unfolding keep_if
  length-keep_if p [] = omega arith
  length-keep_if p (x ∷ xs) = ground (arith, length-keep_if p xs)

  -- A row that satisfies a condition is at hand where one exists.
  pub exists_elim {κ} :
      {P : A → Type κ} (p : A → Bool) (xs : List A)
      → All P xs
      → exists p xs ≡ true
      → (x : A) × P x × (p x ≡ true)
  unfolding exists
  exists_elim p [] h e = absurd (false≢true e)
  exists_elim p (x ∷ xs) (h, hs) e = elim (Bool-cases (p x)) [
    | inl here ↦ (x, h, here)
    | inr there ↦ exists_elim p xs hs (rw there at e)
  ]

  -- What all rows satisfy, the row that is found satisfies.
  pub All-found {κ} :
      (P : A → Type κ) (p : A → Bool) (xs : List A) (x : A) → find p xs ≡ some x → All P xs → P x
  unfolding find
  All-found P p [] x e h = cc
  All-found P p (y ∷ xs) x e (h, hs) = elim (Bool-cases (p y)) [
    | inl here ↦
        let found : some y ≡ some x = rw here at e in let same : y ≡ x = cc found in subst P same h
    | inr there ↦ All-found P p xs x (rw there at e) hs
  ]

  pub exists-of_found :
      (p r : A → Bool) (xs : List A) (x : A) → find p xs ≡ some x → r x ≡ true → exists r xs ≡ true
  unfolding find exists
  exists-of_found p r [] x h k = cc
  exists-of_found p r (y ∷ xs) x h k = ground (arith, exists-of_found p r xs x)

  pub exists-keep_if :
      (p q : A → Bool) (xs : List A) → exists p (keep_if q xs) ≡ exists (λ x. p x && q x) xs
  unfolding exists keep_if
  exists-keep_if p q [] = refl
  exists-keep_if p q (x ∷ xs) = ground (arith, exists-keep_if p q xs)

  -- Conditions that agree on the rows select alike.
  pub keep_if_cong :
      (p q : A → Bool) (xs : List A) → All (λ x. p x ≡ q x) xs → keep_if p xs ≡ keep_if q xs
  unfolding keep_if
  keep_if_cong p q [] h = refl
  keep_if_cong p q (x ∷ xs) (e, h) = ground (arith, keep_if_cong p q xs)

  pub exists_cong :
      (p q : A → Bool) (xs : List A) → All (λ x. p x ≡ q x) xs → exists p xs ≡ exists q xs
  unfolding exists
  exists_cong p q [] h = refl
  exists_cong p q (x ∷ xs) (e, h) = ground (arith, exists_cong p q xs)

pub exists-map {ℓ κ} :
    {A : Type ℓ} {B : Type κ} (p : A → Bool) (f : B → A) (ys : List B)
    → exists p (map f ys) ≡ exists (λ y. p (f y)) ys
unfolding exists
exists-map p f [] = refl
exists-map p f (y ∷ ys) = ap (λ b. p (f y) || b) (exists-map p f ys)

-- A map that keeps what a condition reads maps the row that is found.
pub find-map {ℓ} :
    {A : Type ℓ} (p : A → Bool) (g : A → A) (xs : List A) (x : A)
    → ((a : A) → p (g a) ≡ p a)
    → find p xs ≡ some x
    → find p (map g xs) ≡ some (g x)
unfolding find
find-map p g [] x k h = cc
find-map p g (y ∷ xs) x k h = ground (arith, k y, λ (e : find p xs ≡ some x). find-map p g xs x k e)

-- Every row is one of the rows.
pub exists_each {ℓ} :
    {A : Type ℓ} (r : A → A → Bool) (xs : List A)
    → ((x : A) → r x x ≡ true)
    → All (λ x. exists (r x) xs ≡ true) xs
unfolding exists
exists_each r [] h = tt
exists_each r (x ∷ xs) h =
    (rw (h x) refl, All-map (λ y e. rw e (or_true (r y x))) xs (exists_each r xs h))
  where
    or_true : (b : Bool) → (b || true) ≡ true
    or_true true = refl
    or_true false = refl

-- A condition that every row meets selects all.
pub keep_if_each {ℓ} :
    {A : Type ℓ} (p : A → Bool) (xs : List A) → All (λ x. p x ≡ true) xs → keep_if p xs ≡ xs
unfolding keep_if
keep_if_each p [] h = refl
keep_if_each p (x ∷ xs) (e, h) = ground (arith, keep_if_each p xs)

-- No row meets a condition that excludes each.
pub exists_false {ℓ} :
    {A : Type ℓ} (p : A → Bool) (xs : List A) → All (λ x. p x ≡ false) xs → exists p xs ≡ false
unfolding exists
exists_false p [] h = refl
exists_false p (x ∷ xs) (e, h) = rw e (exists_false p xs h)

-- Those that meet a condition are those that a second one excludes, and the others.
pub length-keep_if_split {ℓ} :
    {A : Type ℓ} (p q : A → Bool) (xs : List A)
    → length (keep_if p xs)
      ≡ length (keep_if (λ x. p x && not (q x)) xs) + length (keep_if (λ x. p x && q x) xs)
unfolding keep_if
length-keep_if_split p q [] = refl
length-keep_if_split p q (x ∷ xs) = ground (arith, length-keep_if_split p q xs)

-- A weaker condition is met where a stronger one is.
pub exists_implies {ℓ} :
    {A : Type ℓ} (p q : A → Bool) (xs : List A)
    → ((x : A) → p x ≡ true → q x ≡ true)
    → exists p xs ≡ true
    → exists q xs ≡ true
unfolding exists
exists_implies p q [] k h = h
exists_implies p q (x ∷ xs) k h = ground (arith, k x, exists_implies p q xs k)

pub exists_some {ℓ} :
    {A : Type ℓ} (p : A → Bool) (xs : List A) → exists p xs ≡ true → (x : A) × (p x ≡ true)
unfolding exists
exists_some p [] e = absurd (false≢true e)
exists_some p (x ∷ xs) e = elim (Bool-cases (p x)) [
  | inl here ↦ (x, here)
  | inr there ↦ exists_some p xs (rw there at e)
]

-- A stronger condition is met by none where a weaker one is met by none.
pub exists_excludes {ℓ} :
    {A : Type ℓ} (p q : A → Bool) (xs : List A)
    → ((x : A) → p x ≡ true → q x ≡ true)
    → exists q xs ≡ false
    → exists p xs ≡ false
unfolding exists
exists_excludes p q [] k h = refl
exists_excludes p q (x ∷ xs) k h = ground (arith, k x, exists_excludes p q xs k)

pub exists-of_none {ℓ} :
    {A : Type ℓ} (p : A → Bool) (xs : List A) → find p xs ≡ none → exists p xs ≡ false
unfolding find exists
exists-of_none p [] h = refl
exists-of_none p (x ∷ xs) h = ground (arith, exists-of_none p xs)
