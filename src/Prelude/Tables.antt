-- ===== src/Prelude/Tables.antt =====
-- Tables as lists of rows: the SQL statements that the services send, as functions.
use Prim.Native.Nat.{ℕ, suc}
use mathlib.Core.Bool.{Bool, false, ◌||◌}
use mathlib.Core.Option.{Option, none, some}
use mathlib.Core.List.{List, [], ◌∷◌}
use ubedtech.Prelude.Tests.{if◌then◌else◌, ◌==◌}

module _ {ℓ} {A : Type ℓ} where
  abbrev pub length : List A → ℕ
  length [] = 0
  length (x ∷ xs) = suc (length xs)

  -- `SELECT … WHERE p`, its first row.
  abbrev pub find_where : (A → Bool) → List A → Option A
  find_where p [] = none
  find_where p (x ∷ xs) = if p x then some x else find_where p xs

  -- `SELECT … WHERE p`, all its rows.
  abbrev pub select_where : (A → Bool) → List A → List A
  select_where p [] = []
  select_where p (x ∷ xs) = let rest = select_where p xs in if p x then x ∷ rest else rest

  -- `SELECT EXISTS (… WHERE p)`
  abbrev pub exists_where : (A → Bool) → List A → Bool
  exists_where p [] = false
  exists_where p (x ∷ xs) = p x || exists_where p xs

  -- `SELECT count(*) … WHERE p`
  abbrev pub count_where : (A → Bool) → List A → ℕ
  count_where p [] = 0
  count_where p (x ∷ xs) = let rest = count_where p xs in if p x then suc rest else rest

  -- `UPDATE … SET f WHERE p`
  abbrev pub update_where : (A → Bool) → (A → A) → List A → List A
  update_where p f [] = []
  update_where p f (x ∷ xs) = (if p x then f x else x) ∷ update_where p f xs

-- A table with a primary key, as the function from a key to its row.
abbrev pub upsert {ℓ} : {A : Type ℓ} → ℕ → A → (ℕ → Option A) → ℕ → Option A
upsert k v table j = if j == k then some v else table j

-- `x = ANY(xs)`
abbrev pub contains : ℕ → List ℕ → Bool
contains k [] = false
contains k (x ∷ xs) = x == k || contains k xs
