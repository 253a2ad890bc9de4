-- ===== src/Internal.antt =====
-- The packages under internal/: the instrument and the streams that the tests of the server run on.
pub mod TestDevice
pub mod TestStream
