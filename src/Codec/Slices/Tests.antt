-- ===== src/Codec/Slices/Tests.antt =====
-- Two slices of a buffer of five bytes, copied with start codes.
use nvidia_vaapi_driver.Prelude.{
  ◌≡◌, ◌⊎◌, refl, none, some, [], ◌∷◌, false, replicate, length-replicate, arith,
}
use nvidia_vaapi_driver.AppendableBuffer.{AppendableBuffer, Memalign}
use nvidia_vaapi_driver.AppendableBuffer.Laws.{IsValid, IsAllocator}
use nvidia_vaapi_driver.Codec.Utils.{VaBuffer, Context, PicParams}
use nvidia_vaapi_driver.Codec.Slices.{copy_slice_data, start_code}
use nvidia_vaapi_driver.Codec.Slices.Measure.{needed}
use nvidia_vaapi_driver.Codec.Slices.Whole.{
  CopiedAll, CopiedNone, copy_slice_data-Outcome, copy_slice_data-CopiedAll,
}
use nvidia_vaapi_driver.AppendableBuffer.Trim.{AlwaysAllocates}

-- Every block comes filled with zeros.
zeros : Memalign
zeros n = some (replicate n 0)

zeros-IsAllocator : IsAllocator zeros
unfolding zeros
zeros-IsAllocator n m e = let q : replicate n 0 ≡ m = cc in rw (← q) (length-replicate n 0)

abbrev empty : AppendableBuffer
empty = record { buf = none; size = 0; allocated = 0; failed = false }

empty-IsValid : IsValid empty
empty-IsValid = record { block = refl; fits = omega arith; small = omega arith }

abbrev five_bytes : VaBuffer
five_bytes = record {
  elements = 1;
  element_size = 5;
  size = 5;
  ptr = some (10 ∷ 11 ∷ 12 ∷ 13 ∷ 14 ∷ []);
}

abbrev two_slices : Context
two_slices = record {
  input_validation_failed = false;
  last_slice_params =
      record { slice_data_offset = 0; slice_data_size = 2 }
      ∷ record { slice_data_offset = 3; slice_data_size = 2 }
      ∷ [];
  last_slice_params_count = 2;
  bitstream_buffer = empty;
  slice_offsets = empty;
}

abbrev no_pic : PicParams
no_pic = record { num_slices = 2; bitstream_data_len = 0 }

copy_slice_data-Outcome_example :
    CopiedAll start_code five_bytes two_slices no_pic
      (copy_slice_data zeros start_code two_slices five_bytes no_pic)
    ⊎ CopiedNone two_slices no_pic (copy_slice_data zeros start_code two_slices five_bytes no_pic)
copy_slice_data-Outcome_example =
    copy_slice_data-Outcome zeros zeros-IsAllocator start_code five_bytes (omega arith) two_slices
      no_pic empty-IsValid empty-IsValid (omega arith) (omega arith, (omega arith, tt))

zeros-AlwaysAllocates : AlwaysAllocates zeros
unfolding zeros
zeros-AlwaysAllocates n = (replicate n 0, refl)

copy_slice_data-CopiedAll_example :
    CopiedAll start_code five_bytes two_slices no_pic
      (copy_slice_data zeros start_code two_slices five_bytes no_pic)
copy_slice_data-CopiedAll_example =
    copy_slice_data-CopiedAll zeros zeros-IsAllocator start_code five_bytes (omega arith) two_slices
      no_pic empty-IsValid empty-IsValid (omega arith) (omega arith, (omega arith, tt))
      (
        record { mapped = refl; inside = omega arith },
        (record { mapped = refl; inside = omega arith }, tt),
      )
      (unfold needed in omega arith) (omega arith) zeros-AlwaysAllocates
