-- ===== src/Connections/Repository.antt =====
-- infrastructure/db/connection_repository.py: the queries in `Queries`, the statements that write in
-- `Statements`, and the methods of `SqlAlchemyConnectionRepository` in `Reads` and `Commands`.
pub mod Queries
pub mod Statements
pub mod Reads
pub mod Commands
