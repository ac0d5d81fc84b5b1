-- ===== src/Lib.antt =====
-- The sandboxed shell of custom_shell/ and the file manager of dir_manage_gtk/, modelled and
-- verified.
--
-- The shell reads a line, splits it at blanks into at most four words, and runs a command of its
-- table or a program. Each command converts the paths of its arguments to absolute paths and
-- compares them with BASE_PATH before it makes a system call.
--
-- The file manager is a window and a backend process. Callbacks of the window put a request of
-- one text, two paths joined by a dollar sign for most, into a message queue; the backend takes
-- it apart, works on the files and answers in a second queue, which the window polls.
--
-- - Prelude: shared names, Boolean tests, lists measured by native numbers, integers.
-- - Libc: what the sources use of the C library's strings (strcmp, strncmp, strrchr, strtok),
--   numbers (strtol with base 8, atoi, the conversions of sscanf and printf for decimals) and bit
--   operations, over texts as lists of bytes.
-- - Run: a run is a state change that returns, exits, follows a null pointer, or uses its fuel up.
--   Run/Keeps has one rule for each way to build a run that keeps an invariant, Run/Does one for
--   each way to build a run that returns with a condition on its result and state.
-- - Shell/Paths: convert_to_absolute and is_valid_path of custom_shell/path_utils.c. Its children
--   Stack and Canonical read paths as stacks of names, Confine is about the check, Bounds about
--   the buffers.
-- - Shell/System: the C library's and kernel's calls, as the parameter System of all that follows.
-- - Shell/Commands: custom_shell/cmd_mkdir.c, cmd_rmdir.c, cmd_rm.c, cmd_rename.c, cmd_ln.c and
--   cmd_cd.c. Shell/Streams: cmd_cat.c and cmd_cp.c. Shell/Chmod: cmd_chmod.c. Shell/Ls: cmd_ls.c.
--   Shell/Process: cmd_run.c and cmd_kill.c. Shell/Main: main.c and cmd_help.c.
-- - Shell/Ps: cmd_ps.c. Shell/ProcStat is its sscanf, with Line for the fields as proc(5) has
--   them, and Shell/Ps/Clock is about the time.
-- - Shell/Confines: what the sandbox check guards, for each command and for the whole shell.
-- - Backend: dir_manage_gtk/backend.c, which serves the file manager's requests from a message
--   queue. Calls has what it calls, Files the operations on files and trees, Requests a handler
--   for each message type and the main loop. Of the proofs, Allows is about the paths that are
--   changed, Ends about termination, Answers about responses, Numbered about new directories,
--   Losses about files that are moved, and Serves about the order of the requests.
-- - Client: the callbacks of dir_manage_gtk/ui_manage.c, ui_cd.c and ui_link.c that send requests,
--   and communication.c, which sends them and polls the responses. Session has the shared state
--   and what GTK and GLib do as the parameter Desktop, Requests and Served what the backend
--   makes of them, and Outbox what the callbacks send.
-- - Version2: dir_manage_ver2/manage_dir.c, the shell before it was split into files. Paths,
--   Commands, Streams, Chmod, Ls and Main follow its sections, over the same Shell/System. Equal
--   compares it with custom_shell, Confines is about its sandbox check.
-- - Ipc: the exercises of IPC/ in which a parent talks to its child. Steps has the runs of two
--   processes that move one call at a time in any order. Pipe is 01_pipe.c, Semaphore
--   04_semaphore.c and MessageQueue 05_message_queue.c: main up to
--   the fork is a function, and what parent and child do behind it are the relations ParentMove
--   and ChildMove. Calls has the calls on memory and semaphores with their documentation.
-- - Client/Navigate: the callbacks of dir_manage_gtk/ui_cd.c that change the directory or open a
--   file. Synced compares the entry with the list.
-- - Client/Dialogs, Client/Selection and Client/Favorites: the actions of ui_manage.c and ui_cd.c
--   that open dialogs, the selection with its menu, and the list of favorites of ui_link.c, over
--   further calls of GTK in Client/Widgets.
-- - Client/Startup: dir_manage_gtk/main.c, which starts the backend and sets up the window, over the
--   calls in Client/Toolkit. Client/Columns: dir_manage_gtk/ui_list.c.
-- - Version1: dir_manage_ver1/manage_dir.c, the first version of the shell. What it shares with the
--   second is the definition of that.
-- - Tests: runs and instances at concrete inputs.
--
-- A command is a function of its words, so argc is the length of argv. Handlers are split where
-- the source tests a pointer or a count: `rm_with` is the part of cmd_rm behind malloc. The
-- functions of path_utils.c are pure, and Shell/System adds their getcwd and malloc.
--
-- Bounds and fuel: mode_t has 32 bits and wraps, BUFSIZ is 8192. The loops of cat and cp take a
-- unit of fuel for each read, and more rounds than bytes left are enough; the main loop takes one
-- for each line. In the backend, a depth of 4096 bounds the nesting of directories, since paths
-- are cut at 4095 bytes and grow with each level, up to a directory's path of 4093 bytes; behind
-- that the recursion need not end. Fuel bounds the chunks of a file, and the rounds of the loop
-- that removes the rows of the list of favorites: one more than there are rows is enough.
--
-- Not modelled: free, the globals of getopt (its results are a parameter), and what an int overflow
-- in atoi and sscanf does. ps is a parameter of the main loop, to which Shell/Confines/Ps gives the
-- one of Shell/Ps. getcwd is taken to succeed. An entry list is read when a directory is opened.
-- The arguments of printed lines in the file manager and its widgets are not modelled. A second
-- g_free of a text ends the program. In IPC/, a strcpy is one step, and the lines that the parent
-- and perror print are left out. Of the other files, custom_shell/previous_code repeats the second
-- version of the shell, and the named pipe, ipc_test, practice and virtual_container are
-- exercises of single system calls. The race of 03_shared_memory.c would need memory byte by byte.
-- A buffer of ls that stays unset after a failed malloc is taken as the empty text.
mod Prelude
pub mod Libc
pub mod Run
pub mod Shell
pub mod Backend
pub mod Client
pub mod Version1
pub mod Version2
pub mod Ipc
mod Tests
