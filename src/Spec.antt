-- ===== src/Spec.antt =====
-- src/spec.c: the checks of a state. Each returns whether the check passes; the text of the message
-- is not modelled.
pub mod Checks
pub mod Meaning
pub mod Deadlock
pub mod Circular
