-- ===== src/Timeseries.antt =====
-- provider/internal/timeseries: statistics over a window of time.
pub mod Series
pub mod Window
