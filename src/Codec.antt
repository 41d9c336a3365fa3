-- ===== src/Codec.antt =====
-- core/codec: the codecs that are written in Go.
pub mod G722
