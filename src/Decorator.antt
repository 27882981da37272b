-- ===== src/Decorator.antt =====
-- The decorator controller of pkg/controller/decorator: the keys of its queue in Keys, its selector in
-- Selector, the changes that it makes to a parent's labels and annotations in Strings, and the children
-- that it has created in Children, and the sync of a parent in Sync.
pub mod Keys
pub mod Selector
pub mod Strings
pub mod Children
pub mod Sync
mod Tests
