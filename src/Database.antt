-- ===== src/Database.antt =====
-- infracstructure/database.py: the tables, the statements and the methods of `DatabaseManager`.
pub mod Tables
pub mod Methods
pub mod Ensures
pub mod Appended
pub mod Integrity
pub mod Settings
pub mod Refinement
