-- ===== src/Lib.antt =====
-- The C parts of the desktop shell: its privileged helpers, its crash handler, and the clients that talk
-- to the compositor. Each part is modelled from its source, with the answers of the system as parameters,
-- and its theorems are about these definitions.
--
-- Parts and files:
--
-- Base, CString, Int and Process are shared. Base has the library names, the Boolean tests on numbers and
-- the list functions. CString has C strings as lists of bytes, without the terminating zero: strcmp,
-- strtok_r, fgets, snprintf into a bounded buffer, strtol, and the printing of numbers. Int has the signed
-- numbers. Process has the answers of write, and the outcome of a run: done, a write through a null
-- pointer, or a wait for an answer that the given list does not hold.
--
-- Firewall is src/services/firewall-helper/main.c. Validate has the checks, State the state file with
-- load_state and save_state, Ruleset the text for nft, Command the options, the commands, apply and main.
-- A run maps the options and the state file to an exit code, the new state file and what nft read.
--
-- Crash is src/services/crash-handler/main.c. Text has the small text functions and what is read from /proc,
-- Config the configuration file, Spool the user's directory with open_user_dir and prune, Files write_core
-- and write_report, whose files hold the bytes that the writes took, Arguments and Main the run. A
-- directory is an association list of names and contents.
--
-- Power is src/services/power-helper/main.c, on the attribute files of one battery. Parental is
-- src/services/parental-helper/main.c, on a map of users to policies; GLib's key file parser and the user
-- database are parameters.
--
-- Ime is src/wayland/ime.c. Defs has the static variables, Keys the forwarding, the grab and the calls of
-- the client, Events the listeners, Steps their sequences. A callback is the list of calls that it makes.
-- Idle is src/wayland/idle_notify.c, KeyHold src/wayland/key_hold.c and Stage src/wayland/stage.c, in the
-- same way: the static variables are a record, each function is a function of it, and the requests are
-- recorded, the last one first.
--
-- Lock is the session locker, src/lockscreen. Of lock_main.c, Defs has the static variables and load_motion,
-- Render what drawing does to the state, Auth the unlocking and submit_password, Input the keyboard and the
-- pointer, Events the outputs, the registry and the step of an event. An event carries a World: the clock,
-- the answer of the authentication and what the drawing library gives. Pam is pam_auth.c, with the PAM
-- library as a parameter; a World's answer is what its function returns. Fprint is lock_fprint.c; a call
-- under way is in a list, and GIO reports an error for one that was cancelled, as its documentation says.
-- The other files of Lock hold the proofs.
--
-- Preview is the part of src/wayland/wayland_integration.c that captures windows: Preview has the pool of
-- buffers, Requests the requests, the events of their frames and the cancellation. A request is in the
-- list of the state from its allocation to its free. Clipboard is src/wayland/clipboard_watch.c: Clipboard
-- has the offers and the readings, Client the calls and the client's own source.
--
-- Windows is the part of wayland_integration.c about the windows of the compositor: Windows has the handles
-- and the tables, Listeners the events about them, Calls the calls of the shell. A call that waits for a
-- round trip takes the events that the round trip dispatches.
--
-- Bounds: a loop over read or write takes the list of the system's answers, and the run is waiting where
-- the list ends before the loop does; the theorems that promise a result say how many answers are enough.
-- Buffers keep their sizes (33, 65, 256, 512, 1024 and 4096 bytes), and numbers printed are below 10^20,
-- where 20 digits are enough for each 64-bit value. The serial of the input method wraps at 2^32. The loop
-- over the forwarded keys runs 1024 rounds, the size of the table. The locker's password buffer is a
-- function of the index, of which 1024 bytes are the buffer, and the pool of captures a function of which 24
-- elements are the pool. The sizes of a picture are below 2^31, where C's conversions keep them; the
-- animation's duration is in microseconds, with its scale in thousandths.
--
-- What the model takes as ideal: an attribute file of sysfs gives back what was written to it, where a
-- driver may round it; max_core_mb * 1024 * 1024 is the number itself, where it overflows long from a
-- configured size of 2^43 on; and a virtual keyboard that the input method client replaced is out of view.
-- What may fail and is not looked at is a parameter: unlinkat in the crash handler, by the names that it can
-- remove, and each fprintf of the firewall's state file, by what it still puts into the stream. A key's text
-- beyond the 8 bytes of the locker's buffer is what the World reads there, and a cancelled capture whose
-- request was freed uses that memory as it was.
--
-- Not modelled: drawing, libraries, the kernel, the Vala code, the C clients not named above, and the rest
-- of wayland_integration.c; the poll loop of the locker, whose callbacks are the events; the callbacks of
-- the windows' events into the shell; the binding of protocol objects, apart from Idle, KeyHold, Stage and
-- Lock; memory that is exhausted, apart from the idle client and the captures.
pub mod Base
pub mod CString
pub mod Int
pub mod Process
pub mod Firewall
pub mod Crash
pub mod Power
pub mod Parental
pub mod Ime
pub mod Idle
pub mod KeyHold
pub mod Stage
pub mod Lock
pub mod Preview
pub mod Clipboard
pub mod Windows
