-- ===== src/Client.antt =====
-- The file manager's window, dir_manage_gtk/ui_manage.c, ui_cd.c, ui_link.c and communication.c:
-- the requests that its callbacks send to backend.c, and the responses that it polls.
pub mod Session
pub mod Send
pub mod Callbacks
pub mod Requests
pub mod Navigate
pub mod Widgets
pub mod Dialogs
pub mod Selection
pub mod Favorites
pub mod Columns
pub mod Outbox
pub mod Served
pub mod Toolkit
pub mod Startup
