-- ===== src/Lib.antt =====
-- A model of parts of the planckOS kernel: its heap allocator and the lock around it, its FAT32
-- file system and disk driver, the keyboard, clock and display drivers, the boot log, the ACPI
-- tables and the shell. The kernel boots, installs one heap segment, reads the ACPI tables, mounts
-- a block device and runs the shell, whose commands call the file system; interrupts feed the
-- keyboard's buffer, from which the shell takes its keys, and the shell draws its line on the
-- display.
--
-- Prelude holds the library names, Boolean tests, wrap-around arithmetic, lists, parts of arrays
-- and texts that all parts share (Prelude/Tests, Prelude/Lists, Prelude/Slices, Prelude/Strings).
--
-- Heap is src/hal/heap.rs. A State is the allocator's counters and segments with the words of the
-- memory. `init_region` and `alloc` are in Heap, `dealloc` and `check_invariants` in Heap/Free,
-- each split at the places where the source's loops begin. Heap/Tiles gives the abstract view, the
-- list of a segment's chunks; Heap/FirstFit, Heap/Alloc and Heap/Serve concern allocation, the
-- files under Heap/Free release. The walks run on fuel of one more than the segment's end.
-- Addresses of the walks wrap at 2^64; a walk that does not wrap goes on by at least 32 bytes a
-- step and never uses its fuel up. The abstract view is of one segment, as the kernel installs it;
-- the operations themselves loop over all.
--
-- SpinLock is the lock of src/hal/memory.rs, as steps of several cores that interleave.
--
-- Fat is src/hal/fat32.rs over the device of src/hal/block.rs. A Disk is a function from sectors to
-- bytes whose sectors may refuse to be read or written. Functions run in a monad of state and
-- errors. Fat/Table has the table's entries and cluster transfers, Fat/Directory names, search and
-- paths, Fat/Transfer `f_read` and `f_write` (Content is what a file holds along its chain, Cursor,
-- Round and Read are about reading, Within and Filled about writing within a cluster), Fat/Manage
-- mounting, opening, seeking, resizing and removing, Fat/Entries the operations on directories,
-- Fat/Text `f_sync` and reading and writing text, Fat/Labels the volume label and the current
-- directory. 32-bit and 16-bit arithmetic wraps. Walks along a cluster chain take fuel as an
-- argument and hang when it is used up, since a chain may be a cycle; `f_read` and `f_write` take
-- one round more than there are bytes. Buffers of clusters start as zeros; log output is left out.
--
-- Input is src/hal/input.rs: an interrupt is a byte given to `irq1_handler`. Rtc is src/hal/rtc.rs:
-- the clock is a parameter, the byte that each access gives.
--
-- Shell is src/shell/mod.rs: the line editor as a function from a key to a new state and the bytes
-- for the display, the history, and the splitting of a line into arguments. Shell/Line compares the
-- editor with a line that has a cursor between two lists, Shell/Dispatch is what a line runs, with
-- src/shell/builtins.rs and the look-up of src/applets/mod.rs, Shell/Redraw sends what it draws to
-- the screen of Display. Display is src/hal/display.rs: the cells at 0xB8000 and the cursor.
-- Framebuffer is src/hal/framebuffer.rs, the screen of pixels that takes the same calls; the font
-- and the size of the screen are parameters, and the search in the font's table takes its length as
-- fuel.
--
-- Ata is src/hal/ata.rs: a drive is what its status and data ports give at each read, and the
-- waiting loops take fuel; a drive that answers within as many reads never uses it up. Fat does not
-- go through Ata, but through the device of src/hal/block.rs, which Ata implements.
--
-- Serial is the log of src/hal/serial.rs: the text of a log line in its buffer of 224 bytes. Acpi
-- is src/hal/acpi.rs over a memory of bytes, with reads out of a slice's range as panics; the walk
-- over the entries of the MADT takes the table's length as fuel, and each entry has at least two
-- bytes. Subtractions that may wrap around are those of a release build.
--
-- Apic is src/hal/apic.rs: the local APIC is what its command register gives at each read and the
-- list of the writes to it, the I/O APIC its registers. Idt is src/hal/idt.rs, with Idt/Handler for
-- what an interrupt does, which calls the keyboard's handler of Input and the doorbell of Smp. Smp
-- is src/hal/smp.rs: the patched trampoline, whose bytes come from the build and are a parameter,
-- the start of the cores in Smp/Boot over the commands of Apic, and in Smp/Doorbell the steps of
-- the idle loop between which the handler runs. Waits for a register take fuel, and a register that
-- is found idle within as many reads never uses it up. Heap/Locked is the allocator of
-- src/hal/memory.rs around Heap. MemoryMap is src/hal/e820.rs.
--
-- Applets are the programs of src/applets that work on files: Applets/Ls with Applets/Ls/Layout,
-- Applets/Rm, Applets/Mk, Applets/Cp and Applets/Out. They run over the record FileSystem of the
-- operations that they call, which Applets/OnFat fills with those of Fat; Applets/Cp/Transferred is
-- about what `cp` needs of them. Fuel bounds the depth of directories, the entries of each and the
-- rounds of the loops. Applets/Reports has the texts of `heap` and `datetime`.
--
-- Not modelled: the port output that starts the drivers, the entry stubs of interrupts, which are
-- assembly, CPU identification and the applet that prints it; the delays between the commands that
-- start a core; the order of the boot in src/main.rs; the reading of the font's header; the file
-- system's built-in test suite.
pub mod Prelude
pub mod Heap
pub mod Fat
pub mod Input
pub mod Rtc
pub mod SpinLock
pub mod Display
pub mod Acpi
pub mod Applets
pub mod Ata
pub mod Idt
pub mod Apic
pub mod Smp
pub mod MemoryMap
pub mod Framebuffer
pub mod Shell
pub mod Serial
