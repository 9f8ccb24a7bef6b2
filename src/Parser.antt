-- ===== src/Parser.antt =====
-- internal/parser/parser.go. Subject models `normalizeSubject`, and Replies compares it with the
-- subject that the assembler gives a reply.
pub mod Subject
pub mod Replies
pub mod Body
pub mod Leaves
pub mod Collects
pub mod Message
pub mod Outcome
