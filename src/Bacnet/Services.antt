-- ===== src/Bacnet/Services.antt =====
-- Service requests and replies, internal/bacnet/services.go. Where the source advances `pos`, the
-- model goes on with the slice `buf[pos:]`.
pub mod Context
pub mod Property
pub mod Multiple
pub mod Discovery
