-- ===== src/Engine.antt =====
-- core-runtime/src/engine: the parts of the inference engine that decide where a model runs.
pub mod MultiGpu
