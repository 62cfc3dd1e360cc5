-- ===== src/Api/Json.antt =====
-- The values of the REST API's bodies, internal/api/dto.go: what a BACnet value renders as, and
-- what a written JSON value becomes.
pub mod Floats
pub mod Render
pub mod Write
