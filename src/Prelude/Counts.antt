-- ===== src/Prelude/Counts.antt =====
-- How the statements on tables change what a later statement counts and finds.
use Prim.Native.Nat.{◌+◌, ◌≤◌, ◌<◌}
use mathlib.Core.Path.{◌≡◌, refl}
use mathlib.Core.Bool.{Bool, true, false, ◌&&◌}
use mathlib.Core.Logic.{inl, inr}
use mathlib.Core.Option.{Option, none, some}
use mathlib.Core.List.{List, [], ◌∷◌, ◌++◌}
use native.Mathlib.Omega.{arith}
use ubedtech.Prelude.Tests.{Bool-cases, Option-cases, if◌then◌else◌}
use ubedtech.Prelude.Tables.{
  length, find_where, select_where, exists_where, count_where, update_where,
}

module _ {ℓ} {A : Type ℓ} where
  -- An update moves the rows that it hits from one count to the other.
  pub count-update :
      (p q : A → Bool) (f : A → A) (xs : List A)
      → count_where p (update_where q f xs) + count_where (λ x. q x && p x) xs
        ≡ count_where p xs + count_where (λ x. q x && p (f x)) xs
  count-update p q f [] = refl
  count-update p q f (x ∷ xs) = ground (arith, count-update p q f xs)

  pub find-holds : (p : A → Bool) (xs : List A) {a : A} → find_where p xs ≡ some a → p a ≡ true
  find-holds p [] {a} h = cc
  find-holds p (x ∷ xs) {a} h = ground (arith, find-holds p xs {a = a})

  pub count-find :
      (p : A → Bool) (xs : List A) {a : A} → find_where p xs ≡ some a → 0 < count_where p xs
  count-find p [] {a} h = cc
  count-find p (x ∷ xs) {a} h = ground (arith, count-find p xs {a = a})

  pub count-find_none : (p : A → Bool) (xs : List A) → find_where p xs ≡ none → count_where p xs ≡ 0
  count-find_none p [] h = refl
  count-find_none p (x ∷ xs) h = ground (arith, count-find_none p xs)

  pub count-exists : (p : A → Bool) (xs : List A) → exists_where p xs ≡ false → count_where p xs ≡ 0
  count-exists p [] h = refl
  count-exists p (x ∷ xs) h = ground (arith, count-exists p xs)

  pub exists-count : (p : A → Bool) (xs : List A) → count_where p xs ≡ 0 → exists_where p xs ≡ false
  exists-count p [] h = refl
  exists-count p (x ∷ xs) h = ground (arith, exists-count p xs)

  -- A predicate that implies another counts no more rows.
  pub count_mono :
      (p q : A → Bool) (xs : List A)
      → ((x : A) → p x ≡ true → q x ≡ true)
      → count_where p xs ≤ count_where q xs
  count_mono p q [] h = omega arith
  count_mono p q (x ∷ xs) h = ground (arith, count_mono p q xs h, h x)

  pub count-never : (p : A → Bool) (xs : List A) → ((x : A) → p x ≡ false) → count_where p xs ≡ 0
  count-never p [] h = refl
  count-never p (x ∷ xs) h = ground (arith, count-never p xs h, h x)

module _ {ℓ} {A : Type ℓ} where
  -- A row found by a predicate that at most one row meets is the only one to be counted.
  pub count_unique :
      (p q : A → Bool) (xs : List A) {a : A}
      → find_where q xs ≡ some a
      → count_where q xs ≤ 1
      → count_where (λ x. q x && p x) xs ≡ (if p a then 1 else 0)
  count_unique p q [] h k = cc
  count_unique p q (x ∷ xs) {a} h k = elim (Bool-cases (q x)) [
    | inl here ↦ ground (arith, count-find_none q xs, only_here here)
    | inr later ↦ ground (arith, count_unique p q xs {a = a})
  ]
    where
      only_here : q x ≡ true → count_where (λ x. q x && p x) xs ≡ 0
      only_here e =
          let none_left : count_where q xs ≡ 0 = ground arith in
          let fewer : count_where (λ x. q x && p x) xs ≤ count_where q xs =
            count_mono (λ x. q x && p x) q xs (λ x. ground arith) in
          omega arith

  -- A stronger predicate finds the same row where at most one meets the weaker.
  pub find-weaken :
      (p q : A → Bool) (xs : List A) {a : A}
      → ((x : A) → p x ≡ true → q x ≡ true)
      → find_where p xs ≡ some a
      → count_where q xs ≤ 1
      → find_where q xs ≡ some a
  find-weaken p q [] i h k = cc
  find-weaken p q (x ∷ xs) {a} i h k =
      ground (arith, i x, find-weaken p q xs {a = a} i, found_later)
    where
      found_later : find_where p xs ≡ some a → 0 < count_where q xs
      found_later e =
          let hit : 0 < count_where p xs = count-find p xs e in
          let fewer : count_where p xs ≤ count_where q xs = count_mono p q xs i in omega arith

module _ {ℓ} {A : Type ℓ} where
  -- An update that leaves a key alone changes the row of the key in place.
  abbrev pub after_update : (A → Bool) → (A → A) → Option A → Option A
  after_update p f none = none
  after_update p f (some x) = some (if p x then f x else x)

  pub find-update :
      (p q : A → Bool) (f : A → A) (xs : List A)
      → ((x : A) → q (f x) ≡ q x)
      → find_where q (update_where p f xs) ≡ after_update p f (find_where q xs)
  find-update p q f [] h = refl
  find-update p q f (x ∷ xs) h = ground (arith, find-update p q f xs h, h x)

  pub count-update_same :
      (p q : A → Bool) (f : A → A) (xs : List A)
      → ((x : A) → q (f x) ≡ q x)
      → count_where q (update_where p f xs) ≡ count_where q xs
  count-update_same p q f [] h = refl
  count-update_same p q f (x ∷ xs) h = ground (arith, count-update_same p q f xs h, h x)

  pub count-append :
      (p : A → Bool) (xs ys : List A)
      → count_where p (xs ++ ys) ≡ count_where p xs + count_where p ys
  count-append p [] ys = omega arith
  count-append p (x ∷ xs) ys = ground (arith, count-append p xs ys)

  -- A table whose rows do not match a statement is not changed by it.
  pub update_none :
      (p : A → Bool) (f : A → A) (xs : List A) → count_where p xs ≡ 0 → update_where p f xs ≡ xs
  update_none p f [] h = refl
  update_none p f (x ∷ xs) h = ground (arith, update_none p f xs)

  pub length-select : (p : A → Bool) (xs : List A) → length (select_where p xs) ≡ count_where p xs
  length-select p [] = refl
  length-select p (x ∷ xs) = ground (arith, length-select p xs)

  pub exists-find_none :
      (p : A → Bool) (xs : List A) → exists_where p xs ≡ false → find_where p xs ≡ none
  exists-find_none p [] h = refl
  exists-find_none p (x ∷ xs) h = ground (arith, exists-find_none p xs)

  -- A row found by any predicate is the row of a key that at most one row has.
  pub find_other :
      (p q : A → Bool) (xs : List A) {a : A}
      → find_where p xs ≡ some a
      → q a ≡ true
      → count_where q xs ≤ 1
      → find_where q xs ≡ some a
  find_other p q xs {a} h t k = elim (Option-cases (find_where q xs)) [
    | inl nothing ↦ absurd (absent xs h nothing)
    | inr (b, e) ↦ present xs h k
  ]
    where
      absent : (ys : List A) → find_where p ys ≡ some a → find_where q ys ≡ none → ⊥
      absent [] e n = cc
      absent (y ∷ ys) e n = ground (arith, absent ys)

      present :
          (ys : List A) → find_where p ys ≡ some a → count_where q ys ≤ 1 → find_where q ys ≡ some a
      present [] e n = cc
      present (y ∷ ys) e n = ground (arith, present ys, hit ys)
        where
          hit : (zs : List A) → find_where p zs ≡ some a → 0 < count_where q zs
          hit [] e = cc
          hit (z ∷ zs) e = ground (arith, hit zs)

  pub find_none-exists :
      (p : A → Bool) (xs : List A) → find_where p xs ≡ none → exists_where p xs ≡ false
  find_none-exists p [] h = refl
  find_none-exists p (x ∷ xs) h = ground (arith, find_none-exists p xs)

  -- An update under which no row comes to be counted.
  pub count-update_zero :
      (p q : A → Bool) (f : A → A) (xs : List A)
      → ((x : A) → p x ≡ false → p (f x) ≡ false)
      → count_where p xs ≡ 0
      → count_where p (update_where q f xs) ≡ 0
  count-update_zero p q f [] h k = refl
  count-update_zero p q f (x ∷ xs) h k = ground (arith, count-update_zero p q f xs h, h x)

  -- A row found by any predicate is counted by every predicate that it meets.
  pub find-count :
      (p q : A → Bool) (xs : List A) {a : A}
      → find_where p xs ≡ some a
      → q a ≡ true
      → 0 < count_where q xs
  find-count p q [] {a} h t = absurd (cc)
  find-count p q (x ∷ xs) {a} h t = ground (arith, find-count p q xs {a = a})
