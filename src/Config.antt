-- ===== src/Config.antt =====
-- The configuration: the parsed file, its validation (src/core/config_validator.py), the
-- configuration objects (src/core/config_models.py), and their manager (src/core/config.py).
pub mod Yaml
pub mod Schema
pub mod Models
pub mod Build
pub mod Complete
pub mod Env
pub mod Manager
pub mod Tests
