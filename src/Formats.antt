-- ===== src/Formats.antt =====
-- The helpers that store objects as JSON, TOML and YAML. The serialisers are third-party code and
-- parameters: `dumps` and `loads` answer or raise.
pub mod Json
pub mod Toml
pub mod Yaml
pub mod Ruamel
pub mod Stored
pub mod RoundTrip
pub mod Dumps
