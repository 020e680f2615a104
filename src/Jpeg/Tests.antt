-- ===== src/Jpeg/Tests.antt =====
-- An image of eight by eight points in one component, with the standard Huffman tables.
use nvidia_vaapi_driver.Prelude.{
  ◌≡◌, ◌⊎◌, refl, none, some, [], ◌∷◌, true, false, replicate, length-replicate, arith,
}
use nvidia_vaapi_driver.AppendableBuffer.{AppendableBuffer, Memalign}
use nvidia_vaapi_driver.AppendableBuffer.Laws.{IsValid, IsAllocator}
use nvidia_vaapi_driver.Jpeg.Types.{JpegSlice, JpegContext}
use nvidia_vaapi_driver.Jpeg.{reconstruct_jpeg}
use nvidia_vaapi_driver.Jpeg.Output.{Rebuilt, NotRebuilt}
use nvidia_vaapi_driver.Jpeg.Reconstruct.{used_tables, reconstruct-Outcome}
use nvidia_vaapi_driver.Codec.Utils.{VaBuffer}
use nvidia_vaapi_driver.Codec.Slices.Whole.{CopiedNone}
use nvidia_vaapi_driver.Jpeg.Handlers.{JpegState, JpegPicture}
use nvidia_vaapi_driver.Jpeg.SliceData.{copy_jpeg_slice_data}
use nvidia_vaapi_driver.Jpeg.Picture.{PictureCopied, copy_jpeg_slice_data-Outcome}

-- Every block comes filled with zeros.
zeros : Memalign
zeros n = some (replicate n 0)

zeros-IsAllocator : IsAllocator zeros
unfolding zeros
zeros-IsAllocator n m e = let q : replicate n 0 ≡ m = cc in rw (← q) (length-replicate n 0)

abbrev empty : AppendableBuffer
empty = record { buf = none; size = 0; allocated = 0; failed = false }

empty-IsValid : IsValid empty
empty-IsValid = record { block = refl; fits = omega arith; small = omega arith }

abbrev grey : JpegContext
grey = record {
  pic_params = record {
    picture_width = 8;
    picture_height = 8;
    components = λ i. record {
      component_id = 1;
      h_sampling_factor = 1;
      v_sampling_factor = 1;
      quantiser_table_selector = 0;
    };
    num_components = 1;
  };
  quant_tables = λ t i. 1;
  huffman_tables = λ t. record {
    num_dc_codes = λ i. 0;
    dc_values = λ i. 0;
    num_ac_codes = λ i. 0;
    ac_values = λ i. 0;
  };
  has_pic_params = true;
  has_iq_matrix = true;
  has_huffman_table = false;
  valid_quant_tables_mask = 1;
  valid_huffman_dc_mask = 0;
  valid_huffman_ac_mask = 0;
}

abbrev scan : JpegSlice
scan = record {
  slice_data_size = 2;
  slice_data_offset = 1;
  slice_data_flag = 0;
  components = λ i. record { component_selector = 1; dc_table_selector = 0; ac_table_selector = 0 };
  num_components = 1;
  restart_interval = 4;
}

reconstruct-Outcome_example :
    Rebuilt grey
      (used_tables 0 grey 3 (scan ∷ []))
      (scan ∷ [])
      (7 ∷ 8 ∷ 9 ∷ [])
      3
      empty
      (reconstruct_jpeg zeros 0 grey (scan ∷ []) (7 ∷ 8 ∷ 9 ∷ []) 3 empty)
    ⊎ NotRebuilt empty (reconstruct_jpeg zeros 0 grey (scan ∷ []) (7 ∷ 8 ∷ 9 ∷ []) 3 empty)
reconstruct-Outcome_example =
    reconstruct-Outcome zeros zeros-IsAllocator 0 grey (7 ∷ 8 ∷ 9 ∷ []) 3 empty empty-IsValid
      (scan ∷ []) (omega arith) (omega arith, tt)

-- A scan with another Huffman table and another restart interval.
abbrev second : JpegSlice
second = record scan {
  components = λ i. record { component_selector = 1; dc_table_selector = 0; ac_table_selector = 1 };
  restart_interval = 2;
}

abbrev three_bytes : VaBuffer
three_bytes = record { elements = 1; element_size = 3; size = 3; ptr = some (7 ∷ 8 ∷ 9 ∷ []) }

abbrev grey_state : JpegState
grey_state = record {
  context = record {
    input_validation_failed = false;
    last_slice_params = [];
    last_slice_params_count = 0;
    bitstream_buffer = empty;
    slice_offsets = empty;
  };
  codec_data = some grey;
  last_slices = some (scan ∷ []);
  last_slices_count = 1;
}

abbrev no_picture : JpegPicture
no_picture = record {
  cuvid = record { num_slices = 0; bitstream_data_len = 0 };
  pic_width_in_mbs = 1;
  frame_height_in_mbs = 1;
  field_pic_flag = 0;
  bottom_field_flag = 0;
  second_field = 0;
  intra_pic_flag = 1;
  ref_pic_flag = 0;
}

copy_jpeg_slice_data-Outcome_example :
    PictureCopied 0 (some grey) (some (scan ∷ [])) 1 three_bytes grey_state.context (
      (copy_jpeg_slice_data zeros 0 grey_state three_bytes no_picture).0.context,
      (copy_jpeg_slice_data zeros 0 grey_state three_bytes no_picture).1.cuvid,
    )
    ⊎ CopiedNone grey_state.context no_picture.cuvid (
      (copy_jpeg_slice_data zeros 0 grey_state three_bytes no_picture).0.context,
      (copy_jpeg_slice_data zeros 0 grey_state three_bytes no_picture).1.cuvid,
    )
copy_jpeg_slice_data-Outcome_example =
    copy_jpeg_slice_data-Outcome zeros 0 grey_state three_bytes no_picture zeros-IsAllocator
      empty-IsValid empty-IsValid (omega arith) (omega arith, tt)
