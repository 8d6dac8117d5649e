-- ===== src/Config.antt =====
-- src/common/config_parser.c, the reader of configuration files of a build without a library for it.
pub mod File
pub mod Lookup
pub mod Parse
pub mod Entries
pub mod Values
pub mod Keys
pub mod KeyParser
pub mod Bindings
pub mod Distinct
pub mod KeyBounds
mod Tests
