-- ===== src/Trackers.antt =====
-- aos/…_tracker and aos/sliding_window_storage: what is known of the last values of each asset.
-- Values are exact integers (scaled prices); the sources use `double`.
pub mod Frequency
pub mod Extreme
pub mod Average
pub mod Window
