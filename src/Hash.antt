-- ===== src/Hash.antt =====
-- common/Sha256.{h,cpp}: the digest that guards a downloaded model.
pub mod Compress
pub mod Digest
pub mod Padding
pub mod Tests
