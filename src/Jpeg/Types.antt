-- ===== src/Jpeg/Types.antt =====
-- The parameters of libva that src/jpeg.c reads, by their fields; arrays are functions of the index.
use nvidia_vaapi_driver.Prelude.{ℕ, Bool}

pub record FrameComponent : Type 0 where
  pub component_id : ℕ
  pub h_sampling_factor : ℕ
  pub v_sampling_factor : ℕ
  pub quantiser_table_selector : ℕ

-- `VAPictureParameterBufferJPEGBaseline`
pub record JpegPicParams : Type 0 where
  pub picture_width : ℕ
  pub picture_height : ℕ
  pub components : ℕ → FrameComponent
  pub num_components : ℕ

pub record ScanComponent : Type 0 where
  pub component_selector : ℕ
  pub dc_table_selector : ℕ
  pub ac_table_selector : ℕ

-- `VASliceParameterBufferJPEGBaseline`
pub record JpegSlice : Type 0 where
  pub slice_data_size : ℕ
  pub slice_data_offset : ℕ
  pub slice_data_flag : ℕ
  pub components : ℕ → ScanComponent
  pub num_components : ℕ
  pub restart_interval : ℕ

-- One entry of `huffman_table` of `VAHuffmanTableBufferJPEGBaseline`.
pub record HuffmanTable : Type 0 where
  pub num_dc_codes : ℕ → ℕ
  pub dc_values : ℕ → ℕ
  pub num_ac_codes : ℕ → ℕ
  pub ac_values : ℕ → ℕ

-- `JPEGContext`; `quant_tables` is the field of `iqMatrix`.
pub record JpegContext : Type 0 where
  pub pic_params : JpegPicParams
  pub quant_tables : ℕ → ℕ → ℕ
  pub huffman_tables : ℕ → HuffmanTable
  pub has_pic_params : Bool
  pub has_iq_matrix : Bool
  pub has_huffman_table : Bool
  pub valid_quant_tables_mask : ℕ
  pub valid_huffman_dc_mask : ℕ
  pub valid_huffman_ac_mask : ℕ
