-- ===== src/Rows.antt =====
-- internal/store/models.go and convert.go: the rows that the Postgres store reads and writes, and the
-- conversions from and to the records of the domain. Same and Kept have the theorems.
-- MessageAttachmentModel and AuditLogModel are used nowhere.
pub mod Parties
pub mod Mail
pub mod Delivery
pub mod Same
pub mod Kept
