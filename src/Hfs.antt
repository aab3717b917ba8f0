-- ===== src/Hfs.antt =====
-- apps/hfs65.c, built for Apple II: an HTTP server of directories, files and disk images.
pub mod Send
pub mod Page
pub mod Server
pub mod Program
