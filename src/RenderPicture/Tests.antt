-- ===== src/RenderPicture/Tests.antt =====
-- A picture that gets a buffer of its context, and one that gets a buffer of another.
use nvidia_vaapi_driver.Prelude.{
  ℕ, ◌≡◌, ◌⊎◌, refl, Option, none, some, [], ◌∷◌, ◌++◌, if◌then◌else◌, true, false, replicate,
}
use nvidia_vaapi_driver.AppendableBuffer.{AppendableBuffer, Memalign}
use nvidia_vaapi_driver.RenderPicture.{
  success, building, Picture, BufferObject, Codec, render_picture, is_success,
}
use nvidia_vaapi_driver.RenderPicture.Failure.{Accepted, Abandoned, render_picture-Outcome}
use nvidia_vaapi_driver.RenderPicture.Sequence.{render, render_picture-append}

abbrev zeros : Memalign
zeros n = some (replicate n 0)

abbrev empty : AppendableBuffer
empty = record { buf = none; size = 0; allocated = 0; failed = false }

abbrev in_building : Picture
in_building = record {
  codec = record {
    context = record {
      input_validation_failed = false;
      last_slice_params = [];
      last_slice_params_count = 0;
      bitstream_buffer = empty;
      slice_offsets = empty;
    };
    slice_params_buffer = empty;
    pic = record { num_slices = 0; bitstream_data_len = 0 };
    render_target = some 3;
    display_target = some 3;
    surface_info = λ i. record {
      progressive_frame = true;
      order_hint = 0;
      color_standard = 0;
      color_range_full = false;
    };
  };
  state = building;
  failure = success;
  surfaces = λ i. record {
    resolving = true;
    decode_failed = false;
    submitted_generation = 1;
    completed_generation = 0;
    completion_status = success;
  };
}

-- A codec whose handlers mark the frames as interlaced.
abbrev one_handler : Codec
one_handler = record {
  handlers = λ t. some (λ c buf. record c {
    surface_info = λ i. record (c.surface_info i) { progressive_frame = false };
  });
  schemas = λ t. record { min_element_size = 1; min_elements = 1; max_elements = 1 };
}

abbrev two_buffers : ℕ → Option BufferObject
two_buffers i = some (record {
  buffer = record { elements = 1; element_size = 1; size = 1; ptr = some (5 ∷ []) };
  buffer_type = 0;
  owner_context_id = i;
})

render_picture-Outcome_example :
    Accepted in_building
      (render_picture zeros 60 4 one_handler 7 false two_buffers in_building (some (7 ∷ 8 ∷ [])))
    ⊎ Abandoned in_building
        (render_picture zeros 60 4 one_handler 7 false two_buffers in_building (some (7 ∷ 8 ∷ [])))
render_picture-Outcome_example =
    render_picture-Outcome zeros 60 4 one_handler 7 false two_buffers in_building
      (some (7 ∷ 8 ∷ [])) refl

render_picture-append_example :
    render zeros 60 4 one_handler 7 two_buffers in_building (7 ∷ [] ++ 8 ∷ []) ≡ (
      if is_success (render zeros 60 4 one_handler 7 two_buffers in_building (7 ∷ [])).0
      then render zeros 60 4 one_handler 7 two_buffers
          (render zeros 60 4 one_handler 7 two_buffers in_building (7 ∷ [])).1
          (8 ∷ [])
      else render zeros 60 4 one_handler 7 two_buffers in_building (7 ∷ []))
render_picture-append_example =
    render_picture-append zeros 60 4 one_handler 7 two_buffers in_building (7 ∷ []) (8 ∷ []) refl
