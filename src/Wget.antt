-- ===== src/Wget.antt =====
-- apps/wget65.c, one module for each family of its functions.
pub mod Completion
pub mod Drive
pub mod Name
pub mod Receive
pub mod Device
pub mod Arguments
pub mod Program
