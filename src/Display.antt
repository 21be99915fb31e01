-- ===== src/Display.antt =====
-- The model part of scripts/m9-2-display-contract-test.py: the display's buffers, and the two records by
-- which the loader hands the display over to Linux.
pub mod Ownership
pub mod Layout
pub mod Cold
pub mod Live
pub mod Versions
