-- ===== src/Export.antt =====
-- The CSV export of tables, web/components/ExportButtons.tsx: `Csv` has the writer, `Reader` a strict
-- reader, `RoundTrip` what it reads back.
pub mod Csv
pub mod Reader
pub mod RoundTrip
mod Tests
