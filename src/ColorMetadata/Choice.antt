-- ===== src/ColorMetadata/Choice.antt =====
-- What the colour metadata comes to.
use nvidia_vaapi_driver.Prelude.{◌≡◌, some, inl, inr, Option-cases}
use nvidia_vaapi_driver.ColorMetadata.{
  Metadata, BackingImage, store_surface_color_metadata, copy_color_metadata_from_backing_image,
  copy_color_metadata,
}

-- What nvBackingImageStoreSurfaceColorMetadata writes to a backing image,
-- nvSurfaceCopyColorMetadataFromBackingImage reads back into any surface, also where the image
-- borrows from another one.
pub copy-store_lem :
    (img : BackingImage) (surface other : Metadata)
    → copy_color_metadata_from_backing_image
        (some other)
        (store_surface_color_metadata (some img) (some surface))
      ≡ some surface
unfolding copy_color_metadata_from_backing_image store_surface_color_metadata copy_color_metadata
copy-store_lem img surface other = elim (Option-cases img.borrowed) [
  | inl e ↦ rw e
  | inr e ↦ rw e.1
]
