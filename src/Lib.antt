-- ===== src/Lib.antt =====
-- nvidia-vaapi-driver: a model of the driver's own data structures and decode logic, with proofs.
--
-- The driver implements VA-API for video decoding on top of NVDEC and CUDA. A client names its
-- configs, contexts, surfaces, images and buffers by ids, which an object table turns into
-- objects. A buffer's bytes come from a pool of blocks; the slice data of a picture are collected
-- in appendable buffers; a decode context chooses how many surfaces NVDEC gets and which of them
-- a picture uses; decoded pictures wait in a queue for the thread that resolves them into
-- exportable images.
--
-- The parts, the files of the repository, and their models:
--   ObjectTable: src/object-table.c, .h. `ObjectTable` is NVObjectTable with its slots as a
--     function of the index; `allocate`, `get`, `object_at`, `remove`, `remove_typed` and `destroy`
--     are nvdObjectTableAllocate and its kin. Whether realloc and calloc succeed are
--     arguments. ObjectTable/Ids, FreeList, Invariant, Steps, Pigeonhole: ids, the list of free
--     slots, well-formedness. Allocate, Remove, Stale, Lookup: the theorems.
--   AppendableBuffer: src/appendable-buffer.c, .h; the bytes are a function of the offset, and
--     memalign is a parameter, which answers with a block of unknown bytes or fails.
--   Array: src/list.c, .h; realloc is a parameter.
--   ResolveQueue: src/resolve-queue.c, .h. Each function is one step under the queue's mutex; a
--     wait on a condition ends the step with `none` and the caller tries again. The clock is an
--     argument.
--   IntervalIndex: src/av1-interval-index.c, .h, an AVL tree of disjoint intervals in an array of
--     nodes, over AppendableBuffer. IntervalIndex/Store, Tree and Models: the trees that an array
--     stands for. Rotations, Rebalance, Balance, Order, Weight: the tree's laws. Insertion, Index:
--     the theorems.
--   BufferPool: the pool of buffer memory in src/vabackend.c (allocateBufferMemory,
--     releaseBufferMemory, destroyBufferPool). `heap` counts what the allocator has handed out at
--     each address and `sizes` keeps with what size; what posix_memalign returns is an argument.
--   SurfaceImport: src/surface-import.c, .h, the attributes of vaCreateSurfaces that import
--     memory. The descriptors of libva are records of their fields; the values of the constants of
--     libva and drm_fourcc.h are an argument.
--   DecodeSurfaces: src/decode-surfaces.c and the selection for a context in src/vabackend.c.
--   PictureOwners: the owners of the decode picture indices of a context in src/vabackend.c, over
--     Codec/PictureIndex.
--   Profiles, ColorMetadata: the query of profiles and the choice of colour metadata in
--     src/vabackend.c; the codec of a profile in src/av1.c, h264.c, hevc.c, jpeg.c, mpeg2.c,
--     mpeg4.c, vc1.c, vp8.c and vp9.c. What the GPU decodes is a parameter.
--   Codec/Slices: the handlers of slice data in src/h264.c, hevc.c, mpeg2.c, mpeg4.c, vc1.c, vp8.c
--     and vp9.c, over Codec/Utils and AppendableBuffer. The memory of the data buffer is a list of
--     bytes. Slices/Measure, Append, Whole: the two loops and the handler.
--   Jpeg: reconstructJPEG of src/jpeg.c, over AppendableBuffer. Jpeg/Types, Tables, Writers: the
--     parameters, the constant tables and the writers of the segments. Bounds, Frame, Output,
--     Reconstruct: that the image fits into what is reserved. Reader: a reader of JPEG headers;
--     Segments, HuffmanSegments, RoundTrip: that it finds the segments. Decode: a decoder of the
--     frame header, the scan header and the restart interval; Headers, LaterScans, Image: that it
--     reads back what the parameters say.
--     Handlers and SliceData: the handlers of src/jpeg.c; Picture: that of the slice data as a whole.
--   HostBuffers: maybeTrimContextHostBuffers of src/vabackend.c, over AppendableBuffer, for the three
--     buffers of a context. HostBuffers/Trimming, Timing: what is given back, and when.
--   RenderPicture: nvRenderPicture of src/vabackend.c for decoding, with the completion of the
--     surfaces that a picture is decoded into. The handlers of the codec are a parameter, and may
--     write what describes a surface. The branch for video processing is left out.
--     RenderPicture/Targets, Failure, Sequence: the cancelling of the targets, what a failure leaves,
--     and buffers in several calls.
--   Codec/PictureIndex, Codec/Utils: src/codec-utils.c, nvdSelectPictureIndex and
--     nvBuildVP8FrameHeader.
--   Prelude: lists, sums, bits and words that the parts share.
--
-- Numbers are natural numbers; where the source's are of 8, 16, 32 or 64 bits the wrap-around is
-- written out. Pointers into the heap are natural numbers, a null pointer is `none`.
--
-- Loops over arrays are recursion on the number of rounds left. The insertion into the interval
-- index and its search run on fuel, one level of the tree for each unit: 26 levels are enough,
-- because a balanced tree of 4096 nodes, the capacity of the index, is lower. The reader of JPEG
-- headers runs on the length of the image, and each segment it reads has four bytes at least.
--
-- Not modelled: the calls of CUDA, NVDEC, EGL and DRM (src/export-buf.c, src/backend-common.c),
-- the ioctls of src/direct, and the kernels of src/kernels.c, because they are sequences of calls
-- of code outside the repository; the statistics of src/stats.c, which have no effect on decoding;
-- the vendored headers under nvidia-include; the copies of picture parameters in the codecs and
-- the entry points of VA-API apart from the parts above. The locks are left out: each operation is
-- one step, as the source runs it under its mutex.
pub mod PictureOwners
pub mod Prelude
pub mod Jpeg
pub mod HostBuffers
pub mod RenderPicture
pub mod AppendableBuffer
pub mod Array
pub mod ObjectTable
pub mod ResolveQueue
pub mod Codec
pub mod Profiles
pub mod DecodeSurfaces
pub mod ColorMetadata
pub mod BufferPool
pub mod IntervalIndex
pub mod SurfaceImport
