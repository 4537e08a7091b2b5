-- ===== src/Lib.antt =====
-- Two programs. The LeapOS kernel of MP3_FinalProj_Kernel/student-distrib, for one 32-bit PC: a
-- C library, a text console, a read-only file system, the interrupt controllers, the real-time
-- clock, three terminals with a keyboard, system calls on descriptors, programs, and paging. And
-- the maze game of MP2 with the driver of its controller.
--
-- How the parts interact. A key raises keyboard_handler, which echoes it with putc and appends it
-- to keyb_buff; Enter sets the flag on which terminal_read spins. A program reaches the terminals,
-- the clock and the files through its descriptors, whose tables of operations sys_read and
-- sys_write call. sys_execute looks a program up in the file system, loads it into the page at 128
-- MB and enters it; sys_halt goes back into the sys_execute of the parent. Alt with F1 to F3, and
-- the timer, switch the visible terminal, which exchanges screens, typed lines and the user page.
--
-- In the game, a window of 320 x 182 pixels moves over the maze. modex.c keeps the window's image in
-- a build buffer, a plane at a time; maze.c gives the colours of rows, columns and squares; mazegame.c
-- moves the player, pans the window by a row or column, and unveils squares; show_screen copies the
-- window to the display. The controller's packets become button bits that a thread turns into
-- directions, and the time of the level goes back as a packet for its LEDs.
--
-- The files, with the code they model:
--   Base         bytes, integers, Boolean tests and arrays, shared by all parts.
--   Libc         lib.c: memset, memcpy, memmove, strlen, strncmp, strcpy, strncpy, strrev, itoa, each
--                a function of the machine's memory and of addresses. Children, one per function.
--   Console      lib.c: clear, putc, background_putc, puts, printf, scroll_down, the cursor. The record
--                Console has the memory, the cursor and the log of bytes sent to ports.
--   FileSystem   file_system_driver.c: the look-ups, read_data, and the operations of files and
--                directories, over the image in memory.
--   Pic          i8259.c: the two masks and what is sent to the controllers.
--   Rtc          rtc.c: rtc_write, rtc_open, init_rtc, rtc_handler; rtc_read is a step relation of a
--                reader and the interrupt.
--   Kernel       the globals of syscall.c, terminal.c, keyboard.c, pit.c and naman_page.c as one record.
--                A call takes the state to a state; Outcome says how a call ends, as entering user mode
--                and going back to a parent are no returns.
--     Files      syscall.c: sys_open, sys_read, sys_write, sys_close, sys_getargs, sys_vidmap.
--     Processes  syscall.c: sys_execute, sys_halt; naman_page.c: setup_PID. Refusing, Starting and
--                Loading are about sys_execute, Ending about sys_halt.
--     Terminals  terminal.c.
--     Keyboard   keyboard.c: the table of scan codes and keyboard_handler.
--     Scheduler  naman_page.c: switch_terminal, remap_mem; pit.c.
--     Sample     a small machine on which the examples run.
--   Paging       naman_page.c: page_init and the entry of setup_PID, against the walk of the processor.
--   ModeX        modex.c: the record View is the memory, where the window is in it, the display and its
--                ports. Window and Buffer are about moving it, Drawing, Undraw and Fence are about blocks, Lines about rows
--                and columns, Showing about the display. Six functions of the code share two loops,
--                scan_row and scan_rows, and the clipping, clip.
--   Maze         maze.c: Squares has the operations, Pictures and Filling the pixels of a line; Shown, Unveiling and
--                Eating are about the window showing the maze, Counting and Fruits about n_fruits,
--                Marking, Ending, Reaching and Ways about mark_maze_area. make_maze is in Crawler (the
--                worms), Joiner (the second phase) and Making: Digging, Crawling and Worms are about the
--                worms, Lattice, Rooms and Neighbours about the squares, Finding, Joining, Knocking,
--                Connecting, JoinRounds, Clearing and Connected about the second phase, Furnishing,
--                Sowing and ExitPlace about fruits and exit, Made about the whole, Marked, Frontier,
--                Scanning, Passes and Rounds about the end of the scan, and Returning, Worming, Yielding
--                and Returns about random numbers with which it returns.
--   Game         mazegame.c: the moves and one tick of rtc_thread; Moves, Framing, Tracking and Seeing are
--                about the window and the player, Level is the level's picture,
--                Starting and Started prepare_maze_level and the start of a level, Keys
--                has keyboard_thread, tux_thread and display_time_tux.
--   Tux          module/tuxctl-ioctl.c with the codes of mtcp.h: Leds and Buttons.
--   Text         text.c: letters as pixels, the text over the player (Fruits), and
--                show_status of modex.c (Status).
-- A module Examples holds concrete instances of the theorems of its parent.
--
-- Numbers and memory. An address or an unsigned value is a natural number with its wrap-around
-- written out where the code relies on it; int32_t values whose sign matters are integers. Memory
-- is a function from addresses to bytes, and no object lies across the end of the address space.
-- Control blocks, terminals and the line buffer are kept apart from it. The buffers that system
-- calls take are physical addresses; Kernel.physical translates a program's own. Where the code
-- writes behind an array (current_command, cmd, keyb_buff), the model's array or memory goes on; the
-- results about them are for inputs that fit.
--
-- Bounds. A loop over a string has the size of the address space as its number of rounds, which
-- no string exceeds; printf has as many over its format. itoa_loop has 32 rounds, enough for a
-- 32-bit value in any radix from 2. The loop of read_data has as many rounds as bytes are left,
-- and takes 4096 in each. A row of the maze touches at most 28 squares and a column at most 17; the search of mark_maze_area has a round for
-- each square, and each square goes through its queue at most once. Each worm of make_maze takes
-- a wall, and its second phase has 100 trials and then a pass over the squares for each that remains.
--
-- Parameters. What the devices answer (inb), the addresses of literals and local arrays, the
-- stack registers, and the states in which the spin loops on enter_flag and the clock's flag end
-- are fields of the record Machine, with no assumption about them; a loop that never ends is
-- none. In the game, blocks is the picture data of blocks.s, font_data the rows of the letters,
-- print what %d of sprintf writes, junk what a line buffer holds before it is filled, beyond
-- what is read behind the array open, put the line discipline's tuxctl_ldisc_put, and random
-- numbers come as a list.
--
-- Not modelled: memset_word, memset_dword, update_mapping and begString, which have no caller;
-- idt.c, kernel.c and the assembly files; the tests; the user programs under
-- MP3_FinalProj_Kernel/syscalls and MP3_FinalProj_Kernel/fish. Of MP2: the registers and
-- palettes of the display adapter, the order of the game's threads and what rtc_thread draws
-- between ticks (the text over the player is made, and not drawn), the input of the host, and
-- the line discipline.
pub mod Base
pub mod Libc
pub mod FileSystem
pub mod Console
pub mod Pic
pub mod Rtc
pub mod Kernel
pub mod Paging
pub mod ModeX
pub mod Maze
pub mod Game
pub mod Tux
pub mod Text
