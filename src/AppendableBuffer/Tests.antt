-- ===== src/AppendableBuffer/Tests.antt =====
-- The theorems of AppendableBuffer at a buffer of three bytes, and runs of its functions.
use nvidia_vaapi_driver.Prelude.{
  ◌+◌, ◌*◌, ◌≡◌, refl, none, some, [], ◌∷◌, true, false, max, replicate, length-replicate, arith,
}
use nvidia_vaapi_driver.AppendableBuffer.{
  AppendableBuffer, Memalign, reserve_buffer, reserve_additional_buffer, reserve_buffer_elements,
  append_buffer, trim_buffer,
}
use nvidia_vaapi_driver.AppendableBuffer.Growth.{grow_by_half, grow_rounds}
use nvidia_vaapi_driver.AppendableBuffer.Laws.{
  IsValid, IsAllocator, Appended, Reserved, append_buffer-Appended,
}
use nvidia_vaapi_driver.AppendableBuffer.Trim.{
  Trimmed, reserve_elements-Reserved, trim_buffer-Trimmed, append-reserve,
}

-- An allocator that hands out blocks of sevens.
abbrev sevens : Memalign
sevens n = some (replicate n 7)

sevens-IsAllocator : IsAllocator sevens
sevens-IsAllocator n m e = let same : replicate n 7 ≡ m = cc in rw (← same) (length-replicate n 7)

abbrev no_memory : Memalign
no_memory n = none

abbrev three : AppendableBuffer
three = record { buf = some (1 ∷ 2 ∷ 3 ∷ 0 ∷ []); size = 3; allocated = 4; failed = false }

three-IsValid : IsValid three
three-IsValid = omega arith

-- Half as much again in each round.
growth_runs : grow_by_half 1000 30 4 ≡ 42
unfolding grow_by_half grow_rounds
growth_runs = refl

append_buffer-Appended_example :
    Appended sevens sevens-IsAllocator three
      (8 ∷ 9 ∷ [])
      2
      (append_buffer sevens three (some (8 ∷ 9 ∷ [])) 2)
append_buffer-Appended_example =
    append_buffer-Appended sevens sevens-IsAllocator three (8 ∷ 9 ∷ []) 2 three-IsValid
      (omega arith) (omega arith)

reserve_elements-Reserved_example :
    Reserved sevens sevens-IsAllocator three (3 + 2 * 4) (reserve_buffer_elements sevens three 2 4)
reserve_elements-Reserved_example =
    reserve_elements-Reserved sevens sevens-IsAllocator three 2 4 three-IsValid

trim_buffer-Trimmed_example :
    let r = trim_buffer sevens (some three) 1 in
    (b' : AppendableBuffer) × (r.1 ≡ some b')
    × Trimmed sevens sevens-IsAllocator three (max 3 1) (r.0, b')
trim_buffer-Trimmed_example = trim_buffer-Trimmed sevens sevens-IsAllocator three 1 three-IsValid

append-reserve_example :
    let r = reserve_additional_buffer sevens three 1 in
    (append_buffer no_memory r.1 (some (9 ∷ [])) 1).0 ≡ true
append-reserve_example =
    append-reserve sevens no_memory three (9 ∷ []) 1 1 sevens-IsAllocator three-IsValid
      (omega arith) (omega arith) (omega arith)
      (unfold reserve_additional_buffer reserve_buffer in refl)
