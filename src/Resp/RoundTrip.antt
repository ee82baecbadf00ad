-- ===== src/Resp/RoundTrip.antt =====
-- Reading back what the encoder writes.
pub mod Line
mod Values
pub use Values.{IsReadable, AllReadable, read-encode, encode_value-append}
