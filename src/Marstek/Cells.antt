-- ===== src/Marstek/Cells.antt =====
-- The list of cell voltages of `MarstekData` in custom_components/marstek_ble/marstek_device.py.
use ha_marstek_ble.Prelude.{
  ℕ, ◌≡◌, refl, sym, ◌∙◌, Option, none, List, [], ◌∷◌, length, length-drop, drop, tabulate,
  tabulate-append-drop, ℤ, arith, subst, get_or,
}
use ha_marstek_ble.Marstek.{MarstekData}

-- The cell voltages are a list of 16, as the constructor makes it.
abbrev pub HasCells : MarstekData → Type 0
HasCells d = length d.cell_voltages ≡ 16

length-zero : {A : Type 0} (xs : List A) → length xs ≡ 0 → xs ≡ []
length-zero [] h = refl
length-zero (x ∷ xs) h = absurd (omega arith)

sixteen :
    (cells : List (Option (ℤ × ℕ))) → length cells ≡ 16 → cells ≡ tabulate (get_or cells none) 16
sixteen cells h =
    tabulate-append-drop none 16 cells (omega arith)
    ∙ rw (length-zero (drop 16 cells) (omega (arith, length-drop 16 cells)))

pub with_cells :
    (P : MarstekData → Type 0) (d : MarstekData)
    → HasCells d
    → ((c : ℕ → Option (ℤ × ℕ)) → P (record d { cell_voltages = tabulate c 16 }))
    → P d
with_cells P d h q =
    subst (λ (cells : List (Option (ℤ × ℕ))). P (record d { cell_voltages = cells }))
      (sym (sixteen d.cell_voltages h)) (q (get_or d.cell_voltages none))
