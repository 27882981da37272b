-- ===== src/Composite.antt =====
-- The composite controller of pkg/controller/composite: a parent's selector in Selector, its claims in
-- Claims, the events that queue a parent in Events, the queue in Queue, what is done with its revisions
-- in Revisions, and the sync of a parent in Sync.
pub mod Selector
pub mod Claims
pub mod Samples
pub mod Queue
pub mod Sync
pub mod Events
pub mod Revisions
