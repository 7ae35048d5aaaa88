-- ===== src/Url.antt =====
-- c/url_parser.c and c/url_parser.h: the URL parser.
pub mod Chars
pub mod Percent
pub mod Utf8
pub mod Segments
pub mod Host
pub mod Parse
pub mod Normalize
pub mod Query
pub mod Domain
pub mod Print
mod Tests
