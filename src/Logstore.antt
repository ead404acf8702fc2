-- ===== src/Logstore.antt =====
-- internal/logstore: the bounded logs that an allocator keeps of its executions.
pub mod Store
pub mod StoreLaws
pub mod Budget
