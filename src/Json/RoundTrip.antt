-- ===== src/Json/RoundTrip.antt =====
-- That `json.loads` reads what `json.dumps` writes.
pub mod Chars
pub mod Plain
pub mod Values
pub mod Sizes
pub mod Whole
