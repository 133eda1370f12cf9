-- ===== src/Container.antt =====
-- runtime/container.c: the checked sizes and the managed containers.
pub mod Checked
pub mod Memory
pub mod Dynamic
pub mod Runes
