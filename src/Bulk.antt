-- ===== src/Bulk.antt =====
-- The bulk imports: packages/nextjs/services/bulkImport and utils/readNdjsonRows.ts.
pub mod Rows
