-- ===== src/Workflow.antt =====
-- crates/nagisalake-workflow: workflows with inputs that are bound to places in their JSON.
pub mod Pointer
