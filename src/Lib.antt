-- ===== src/Lib.antt =====
-- LightningOS: a 32-bit kernel for x86 in one address space, modelled from its C sources.
--
-- Parts of the program, and the files that model them:
--   kernel/mem.c        Mem.antt, Mem/: the memory map and the heap, as block headers in memory
--   kernel/task.c       Task.antt, Task/: the task table, the run list and the scheduler
--   kernel/users.c      Users.antt, Users/: the account table
--   fs/persist.c        Persist.antt, Persist/: the snapshot on the data disk
--   fs/ramfs.c          Fs.antt, Fs/: the nodes in memory, and their paths; Persist/Writer.antt has
--                       the shape of the tree and fs_abspath()
--   drivers/vga.c       Vga.antt, Vga/: the screen, the scrollback and the video memory
--   drivers/ata.c       Ata.antt, Ata/: the polled disk driver; Ports.antt has the port instructions
--   drivers/mouse.c     Mouse.antt, Mouse/: the packets of the mouse and its commands
--   kernel/install.c    Install.antt, Install/: what is written to a disk, and the menu
--   kernel/shell.c      Shell.antt, Shell/: the commands that change the filesystem
--   kernel/console.c    Console.antt, Console/: the history and the line editor
--   drivers/keyboard.c  Keyboard.antt, Keyboard/: the scancode handler and the key ring
--   drivers/rtc.c       Rtc.antt, Rtc/: the time in the registers of the CMOS clock
--   lib/printf.c        Printf.antt, Printf/: the formatter and the buffer of kvsnprintf()
--   lib/string.c        Strings.antt, Strings/: memory and text functions
--   Prelude.antt holds the tests, lists and integers that all share.
--
-- How the parts interact: the timer interrupt calls task_account_tick() and task_schedule(); a task
-- that is spawned gets its stack from kmalloc(), and task_reap() gives it to kfree(). The keyboard
-- interrupt fills the ring that keyboard_poll() empties. persist_save() reads the accounts and the
-- tree, and persist_mount() rebuilds them by users_import(), fs_create() and fs_write_n().
--
-- A function of the sources keeps its name. The static variables of a file are a record that goes in
-- and out; NULL is 0, or `none` for an argument. Where a function panics, or a loop runs out of the
-- fuel that is its first argument, it gives `none`. Numbers are natural, with the wrap of the C type
-- written out where it can occur.
--
-- console_read_line() draws on the screen of drivers/vga.c, and its theorems are about both.
--
-- Bounds: the loops along the children of a directory get more fuel than there are children, and
-- free_subtree() more than twice as many rounds as nodes; walk() gets one round more than the path
-- has bytes. The walks of kmalloc() get more fuel than the heap has bytes, loops over a text one
-- round more than it has bytes, and the loops round the run list 33 rounds, which is twice the 16 slots of
-- the task table and one; the theorems show that this is enough. format_uint() gets 32 divisions for
-- a value of 32 bits, which is shown to be enough too, and format() one round more than its format has
-- characters, with which it is shown to end. The other loops run over tables and lists of known
-- length.
--
-- Hardware and neighbours are arguments: the tick count, the answer of kmalloc() for a stack or a
-- buffer, whether a path resolves, what stands on a drive where the snapshot would be, whether a disk
-- transfer succeeds and what it reads. An operation that masks interrupts is one step. The calls that kernel/users.c makes of the filesystem, and the
-- disk writes of fs/persist.c, are lists of what was asked for.
--
-- execute() of the shell composes the tree, the accounts and the flag of fs/persist.c. Where a path
-- leads is said there by the names above a node (Shell/Places.antt), and of a snapshot by the names
-- in the tree (Persist/Paths.antt), not by fs_abspath(), which reads the lowest 32 names.
--
-- Not modelled: of the shell, the commands that only print, and those that call the scheduler, the
-- accounts, mkfs and sync; what the installer prints, the interrupt tables, the timer chip, and the
-- boot code, which is assembly. Of the modelled files: task_bootstrap(),
-- task_state_name(), the wait loop of task_sleep_ms(), the interactive part of kernel/users.c and
-- the text of its /etc/passwd, and the terminators that str_split() writes.
pub mod Prelude
pub mod Ata
pub mod Console
pub mod Fs
pub mod Install
pub mod Keyboard
pub mod Mem
pub mod Mouse
pub mod Persist
pub mod Ports
pub mod Printf
pub mod Rtc
pub mod Shell
pub mod Strings
pub mod Task
pub mod Users
pub mod Vga
