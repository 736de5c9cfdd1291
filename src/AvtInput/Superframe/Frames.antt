-- ===== src/AvtInput/Superframe/Frames.antt =====
-- `getNextFrame` as a whole.
use odr_source_companion.AvtInput.{AvtInput}
