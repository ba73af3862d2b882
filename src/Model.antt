-- ===== src/Model.antt =====
-- src/chibios_model.c: the models of mutexes, semaphores, condition variables and mailboxes.
pub mod Queue
pub mod Consistent
pub mod Mutex
pub mod Semaphore
pub mod Condvar
pub mod Mailbox
