-- ===== src/Core.antt =====
-- The domain model and the string, URL, JSON and validation helpers: src/core/utils.cpp with
-- include/url_shortener/core/types.hpp.
pub mod Text
pub mod Slug
pub mod Config
pub mod Link
pub mod Validation
pub mod Json
pub mod Url
