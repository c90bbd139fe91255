-- ===== src/Chunk/Tests.antt =====
-- The memory layout of a chunk at a concrete geometry.
use ch_frb_io.Chunk.Layout.{IsPacked, HasRoomForArrays, slab_layout, slab_layout-IsPacked}

slab_layout-IsPacked_example :
    IsPacked (slab_layout 16 16 16384) × HasRoomForArrays 16 16 16384 (slab_layout 16 16 16384)
slab_layout-IsPacked_example = slab_layout-IsPacked 16 16 16384
