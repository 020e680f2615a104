-- ===== src/Codec.antt =====
-- What the codecs share: src/codec-utils.c, and their slice handlers.
pub mod PictureIndex
pub mod Utils
pub mod Slices
