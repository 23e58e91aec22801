-- ===== src/Transaction.antt =====
-- Transactions: src/transaction_base.cxx, src/transaction.cxx, src/subtransaction.cxx, and the part of
-- src/connection.cxx and src/util.cxx that they use.
mod Tests
pub mod State
pub mod Operations
pub mod Final
pub mod Closing
pub mod Committing
