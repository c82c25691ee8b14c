-- ===== src/Sql.antt =====
-- internal/executor/sql: the SQL tool executor.
pub mod Template
pub mod Datasource
pub mod Execute
mod Tests
