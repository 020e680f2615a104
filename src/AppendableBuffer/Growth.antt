-- ===== src/AppendableBuffer/Growth.antt =====
-- The capacity loop that src/appendable-buffer.c and src/list.c share: half as much again in each
-- round, and the required capacity itself where half is nothing or the type would overflow.
use nvidia_vaapi_driver.Prelude.{
  ℕ, zero, suc, ◌+◌, ◌-◌, ◌/◌, ◌≤◌, true, false, ◌||◌, ltb, ◌==◌, arith,
}

-- `limit` is SIZE_MAX or UINT32_MAX. The first argument is the fuel.
unfoldable pub grow_rounds : ℕ → ℕ → ℕ → ℕ → ℕ
grow_rounds zero limit required capacity = capacity
grow_rounds (suc fuel) limit required capacity = elim (ltb capacity required) [
  | false ↦ capacity
  | true ↦ elim (capacity / 2 == 0 || ltb (limit - capacity / 2) capacity) [
    | true ↦ required
    | false ↦ grow_rounds fuel limit required (capacity + capacity / 2)
  ]
]

-- Each round adds at least one, so `required` rounds are enough.
unfoldable pub grow_by_half : ℕ → ℕ → ℕ → ℕ
grow_by_half limit required capacity = grow_rounds required limit required capacity

grow_rounds_bounds :
    (fuel limit required capacity : ℕ)
    → required ≤ capacity + fuel
    → required ≤ limit
    → capacity ≤ limit
    → (required ≤ grow_rounds fuel limit required capacity)
      × (capacity ≤ grow_rounds fuel limit required capacity)
      × (grow_rounds fuel limit required capacity ≤ limit)
unfolding grow_rounds
grow_rounds_bounds zero limit required capacity enough r c = omega arith
grow_rounds_bounds (suc fuel) limit required capacity enough r c =
    ground (arith, grow_rounds_bounds fuel limit required (capacity + capacity / 2))

-- The loop ends with a capacity that holds what is required, is no smaller than before, and stays
-- in the type.
pub grow_by_half_bounds :
    (limit required capacity : ℕ)
    → required ≤ limit
    → capacity ≤ limit
    → (required ≤ grow_by_half limit required capacity)
      × (capacity ≤ grow_by_half limit required capacity)
      × (grow_by_half limit required capacity ≤ limit)
unfolding grow_by_half
grow_by_half_bounds limit required capacity r c =
    grow_rounds_bounds required limit required capacity (omega arith) r c
