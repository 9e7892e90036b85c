-- ===== src/Prelude/Prefix.antt =====
-- A list split into its first elements and the rest, so that what reads the first ones computes.
use Prim.Native.Nat.{ℕ, ◌≤◌}
use mathlib.Core.Path.{◌≡◌, sym, subst}
use mathlib.Core.Bool.{false}
use mathlib.Core.Logic.{inl, inr}
use mathlib.Core.List.{List, ◌++◌}
use ha_marstek_ble.Prelude.Lists.{length, drop, get_or, tabulate, tabulate-append-drop}
use ha_marstek_ble.Prelude.Tests.{fits, fits→le, Bool-cases}

-- What holds of every list of at least `n` numbers holds of a list that long.
pub by_prefix :
    (P : List ℕ → Type 0) (n : ℕ) (xs : List ℕ)
    → n ≤ length xs
    → P (tabulate (get_or xs 0) n ++ drop n xs)
    → P xs
by_prefix P n xs h q = subst P (sym (tabulate-append-drop 0 n xs h)) q

-- A list has fewer than `n` elements, or `n` and the rest.
pub by_length :
    (P : List ℕ → Type 0) (n : ℕ) (xs : List ℕ)
    → (fits n (length xs) ≡ false → P xs)
    → ((f : ℕ → ℕ) (rest : List ℕ) → P (tabulate f n ++ rest))
    → P xs
by_length P n xs short long = elim (Bool-cases (fits n (length xs))) [
  | inl t ↦ by_prefix P n xs (fits→le n (length xs) t) (long (get_or xs 0) (drop n xs))
  | inr f ↦ short f
]
