-- ===== src/Actor.antt =====
-- The builtin actors of vm/actor and the runtime that calls them.
pub mod Error
pub mod Map
pub mod Runtime
pub mod Inversion
pub mod Keeps
pub mod Multisig
pub mod Paych
