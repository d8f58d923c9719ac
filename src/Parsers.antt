-- ===== src/Parsers.antt =====
-- internal/parsers: what the inspections of a request's body find. The issues are texts for a reader.
pub mod Graphql
pub mod Upload
pub mod Depth
pub mod Tests
