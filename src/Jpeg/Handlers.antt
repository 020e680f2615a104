-- ===== src/Jpeg/Handlers.antt =====
-- The handlers of src/jpeg.c: each takes what libva hands over into the context of the codec, and
-- the handler of the slice data has the image put together. A context of the codec outlives the
-- picture, so that its tables can be used again.
use nvidia_vaapi_driver.Prelude.{
  ℕ, zero, suc, ◌+◌, ◌/◌, ◌%◌, ◌^◌, Option, none, some, List, Bool, false, ◌&&◌, not, ltb, leb,
  ◌==◌, if◌then◌else◌,
}
use Prim.Native.Nat.{bit_or}
use nvidia_vaapi_driver.Codec.Utils.{Context, PicParams}
use nvidia_vaapi_driver.Codec.Slices.{fail_bitstream}
use nvidia_vaapi_driver.Jpeg.Types.{JpegPicParams, JpegSlice, HuffmanTable, JpegContext}
use nvidia_vaapi_driver.Jpeg.{max_components}

-- `NVContext` as the handlers of JPEG use it: the slice parameters that the pointer stands for are
-- those of JPEG.
pub record JpegState : Type 0 where
  pub context : Context
  pub codec_data : Option JpegContext
  pub last_slices : Option (List JpegSlice)
  pub last_slices_count : ℕ

-- The fields of `CUVIDPICPARAMS` that are written.
pub record JpegPicture : Type 0 where
  pub cuvid : PicParams
  pub pic_width_in_mbs : ℕ
  pub frame_height_in_mbs : ℕ
  pub field_pic_flag : ℕ
  pub bottom_field_flag : ℕ
  pub second_field : ℕ
  pub intra_pic_flag : ℕ
  pub ref_pic_flag : ℕ

abbrev pub zero_pic_params : JpegPicParams
zero_pic_params = record {
  picture_width = 0;
  picture_height = 0;
  components = λ i. record {
    component_id = 0;
    h_sampling_factor = 0;
    v_sampling_factor = 0;
    quantiser_table_selector = 0;
  };
  num_components = 0;
}

-- What calloc gives.
abbrev pub zero_jpeg_context : JpegContext
zero_jpeg_context = record {
  pic_params = zero_pic_params;
  quant_tables = λ t i. 0;
  huffman_tables = λ t. record {
    num_dc_codes = λ i. 0;
    dc_values = λ i. 0;
    num_ac_codes = λ i. 0;
    ac_values = λ i. 0;
  };
  has_pic_params = false;
  has_iq_matrix = false;
  has_huffman_table = false;
  valid_quant_tables_mask = 0;
  valid_huffman_dc_mask = 0;
  valid_huffman_ac_mask = 0;
}

-- getJPEGContext with `createIfMissing`, and whether calloc succeeds. The handlers that create go
-- on with `f` where there is a context.
abbrev pub with_jpeg_context : Bool → (JpegContext → JpegContext) → JpegState → JpegState
with_jpeg_context calloc f st = elim (st.codec_data) [
  | some jpeg ↦ record st { codec_data = some (f jpeg) }
  | none ↦
      if calloc
      then record st { codec_data = some (f zero_jpeg_context) }
      else record st { context = fail_bitstream st.context }
]

abbrev pub map_jpeg_context : (JpegContext → JpegContext) → Option JpegContext → Option JpegContext
map_jpeg_context f none = none
map_jpeg_context f (some jpeg) = some (f jpeg)

abbrev pub clear_pic_params : JpegContext → JpegContext
clear_pic_params jpeg = record jpeg { pic_params = zero_pic_params; has_pic_params = false }

-- resetJPEGPictureState, which is all of jpegBeginPicture.
pub begin_picture : JpegState → JpegState
begin_picture st = record st {
  codec_data = map_jpeg_context clear_pic_params st.codec_data;
  last_slices = none;
  last_slices_count = 0;
}

abbrev pub store_pic_params : JpegPicParams → JpegContext → JpegContext
store_pic_params buf jpeg = record jpeg {
  pic_params = buf;
  has_pic_params =
      not (buf.picture_width == 0)
      && not (buf.picture_height == 0)
      && ltb 0 buf.num_components
      && leb buf.num_components max_components;
}

-- copyJPEGPicParam; the fields of libva are of 16 bits.
pub copy_pic_param : Bool → JpegState → JpegPicParams → JpegPicture → JpegState × JpegPicture
copy_pic_param calloc st buf pic = (
  with_jpeg_context calloc (store_pic_params buf) st,
  record pic {
    pic_width_in_mbs = (buf.picture_width + 15) / 16;
    frame_height_in_mbs = (buf.picture_height + 15) / 16;
    field_pic_flag = 0;
    bottom_field_flag = 0;
    second_field = 0;
    intra_pic_flag = 1;
    ref_pic_flag = 0;
  },
)

-- `a` with the entry at `i` replaced.
abbrev pub put_at {ℓ} : {A : Type ℓ} → (ℕ → A) → ℕ → A → ℕ → A
put_at a i x j = if j == i then x else a j

-- The loop of copyJPEGIQMatrix; `load` is `load_quantiser_table`.
pub load_quant_tables : ℕ → ℕ → (ℕ → ℕ) → (ℕ → ℕ → ℕ) → JpegContext → JpegContext
load_quant_tables zero table load tables jpeg = jpeg
load_quant_tables (suc rounds) table load tables jpeg =
    load_quant_tables rounds (table + 1) load tables (
      if load table == 0 then jpeg else record jpeg {
        quant_tables = put_at jpeg.quant_tables table (tables table);
        valid_quant_tables_mask = bit_or jpeg.valid_quant_tables_mask (2 ^ table % 256);
      })

abbrev pub store_iq_matrix : (ℕ → ℕ) → (ℕ → ℕ → ℕ) → JpegContext → JpegContext
store_iq_matrix load tables jpeg =
    let jpeg' = load_quant_tables 4 0 load tables jpeg in
    record jpeg' { has_iq_matrix = not (jpeg'.valid_quant_tables_mask == 0) }

pub copy_iq_matrix : Bool → JpegState → (ℕ → ℕ) → (ℕ → ℕ → ℕ) → JpegState
copy_iq_matrix calloc st load tables = with_jpeg_context calloc (store_iq_matrix load tables) st

-- The loop of copyJPEGHuffmanTable; `load` is `load_huffman_table`.
pub load_huffman_tables : ℕ → ℕ → (ℕ → ℕ) → (ℕ → HuffmanTable) → JpegContext → JpegContext
load_huffman_tables zero table load tables jpeg = jpeg
load_huffman_tables (suc rounds) table load tables jpeg =
    load_huffman_tables rounds (table + 1) load tables (
      if load table == 0 then jpeg else record jpeg {
        huffman_tables = put_at jpeg.huffman_tables table (tables table);
        valid_huffman_dc_mask = bit_or jpeg.valid_huffman_dc_mask (2 ^ table % 256);
        valid_huffman_ac_mask = bit_or jpeg.valid_huffman_ac_mask (2 ^ table % 256);
      })

abbrev pub store_huffman_table : (ℕ → ℕ) → (ℕ → HuffmanTable) → JpegContext → JpegContext
store_huffman_table load tables jpeg =
    let jpeg' = load_huffman_tables 2 0 load tables jpeg in
    record jpeg' {
      has_huffman_table = not (bit_or jpeg'.valid_huffman_dc_mask jpeg'.valid_huffman_ac_mask == 0);
    }

pub copy_huffman_table : Bool → JpegState → (ℕ → ℕ) → (ℕ → HuffmanTable) → JpegState
copy_huffman_table calloc st load tables =
    with_jpeg_context calloc (store_huffman_table load tables) st

-- copyJPEGSliceParam
pub copy_jpeg_slice_param : JpegState → Option (List JpegSlice) → ℕ → JpegState
copy_jpeg_slice_param st slices elements = record st {
  last_slices = slices;
  last_slices_count = elements;
}
