-- ===== src/Subject.antt =====
-- internal/subject: the grammar of subjects, patterns and names, and the compiled matcher.
pub mod Utf8
pub mod Grammar
pub mod Match
pub mod Name
mod Examples
