-- ===== src/Codec/PictureIndex/Tests.antt =====
-- The choice of a decode surface at concrete masks.
use nvidia_vaapi_driver.Prelude.{ℕ, ◌≤◌, ◌<◌, ◌≡◌, ◌⊎◌, refl, false, arith}
use nvidia_vaapi_driver.Codec.PictureIndex.{max_decode_surfaces, select_picture_index}
use nvidia_vaapi_driver.Codec.PictureIndex.Choice.{
  Chosen, is_free, select_picture_index-Chosen, select_picture_index-eq-none,
}

-- Of four surfaces 0 and 1 are references and 2 is being resolved; the cursor stands at 1.
select_picture_index-Chosen_example : Chosen 4 4 3 4 1 (omega arith) (omega arith) 3
select_picture_index-Chosen_example =
    select_picture_index-Chosen 4 4 3 4 1 (omega arith) (omega arith) 3
      (unfold select_picture_index in refl)

-- Both surfaces are references.
select_picture_index-eq-none_example :
    (◌≡◌ {A = ℕ} 2 0)
    ⊎ (max_decode_surfaces < 2)
    ⊎ (2 ≤ 2) × ((i : ℕ) → i < 2 → is_free 3 0 i ≡ false)
select_picture_index-eq-none_example =
    select_picture_index-eq-none 2 2 3 0 0 (omega arith) (omega arith)
      (unfold select_picture_index in refl)
