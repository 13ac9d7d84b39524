-- ===== src/Env.antt =====
-- kern/env.c and kern/sched.c: environments, their identifiers, and who runs.
pub mod State
pub mod Alloc
pub mod Sched
pub mod Ids
pub mod Create
pub mod Running
pub mod Exclusive
pub mod Tests
pub mod Free
pub mod Region
