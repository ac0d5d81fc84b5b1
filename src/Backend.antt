-- ===== src/Backend.antt =====
-- dir_manage_gtk/backend.c, the process that serves the requests of the file manager.
pub mod Calls
pub mod Files
pub mod Requests
pub mod Allows
pub mod Ends
pub mod Answers
pub mod Numbered
pub mod Losses
pub mod Serves
