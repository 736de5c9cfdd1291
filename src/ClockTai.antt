-- ===== src/ClockTai.antt =====
-- lib/ClockTAI.cpp and lib/ClockTAI.h: the offset between TAI and UTC. Texts are lists of bytes; the
-- clocks, the downloads and the cache file are arguments, and a clock is read once for a call. The
-- messages to the log are left out.
pub mod Text
pub mod Bulletin
pub mod Selection
pub mod Refresh
