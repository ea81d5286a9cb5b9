-- ===== src/Lib.antt =====
-- A model of bdtun: a Linux kernel module that forwards the bios of a block device to userspace,
-- the library that a userspace driver talks to it with, and the command line tool.
--
-- How the program works. A device pair is a block device and a tunnel, a character device. The
-- block layer hands bios to the block device; each waits on the device's incoming list until a
-- client reads its header from the tunnel, which moves it to the pending list. The client then
-- chooses a request by its id, the address of the list entry, transfers data, and writes a
-- completion byte, which ends the bio. The control device creates, removes, resizes, lists and
-- describes pairs. The library wraps the reads and writes on both kinds of device.
--
-- Which file models which part.
--   - Header: include/bdtun.h, the constants and the structures with their bytes.
--   - Device: the data of kernel/bdtun.c: struct bdtun, its list entries, the gendisk and its
--     statistics, a heap of list entries by address, and the bios that bio_endio was called on.
--   - Block: bdtun_make_request, bdtun_open, bdtun_release, bdtun_getgeo; Block/Geometry proves.
--   - Tunnel: bdtunch_open, bdtunch_release, bdtunch_read, bdtunch_write, bdtun_update_iostat,
--     bdtunch_poll; Tunnel/Flags: bdtun_translate_bio_rw; Tunnel/Mapping: bdtunch_mmap;
--     Tunnel/Waiting: the wait queue, with each atomic operation as a step, and what holds of it.
--     Tunnel/FlagLaws, Tunnel/MappingLaws, Tunnel/Data and Tunnel/Retry prove.
--   - Queue, System: one device under arbitrary calls, a step relation; System/Broker: what a
--     device promises, without addresses; System/Events and System/ThreadEvents: what each call asks
--     of it; System/Locks: the section of a header read under incoming_bio_list_lock, with the calls
--     that run beside it; System/Threads: the sections of a completion, of a
--     transfer of data and of a mapping in bdtunch_write, bdtunch_read and bdtunch_mmap as steps of
--     threads; the other modules prove what holds in every history, and what a client's calls do.
--   - Registry: device_list and bdtun_find_device; Registry/Create: bdtun_create_k and
--     bdtun_do_add_disk; Registry/Manage: bdtun_resize_k, bdtun_remove_dev, bdtun_remove_k,
--     bdtun_info_k; Registry/Listing: bdtun_list_k; Registry/Usage: the sections under ru_lock of
--     the open and release handlers and of bdtun_remove_k as steps; the other modules under it
--     prove.
--   - Control: ctrl_read, ctrl_write, and struct bdtun_ctrl_command by its bytes; Control/Lock:
--     ctrl_open and ctrl_release with each atomic operation as a step.
--   - Module: bdtun_init and bdtun_exit; Module/Outcomes proves.
--   - Client: lib/libbdtun.c over any read, write, mmap and munmap; Client/Link puts it on the
--     module's handlers.
--   - Tool/Options: parse_opt of util/bdtun.c; Tool/Table: its table of options, by their long
--     names; Tool/Main: its main, from the switch on; Tool/Program: open_ctrldev and the whole of
--     main. The other modules under Tool prove.
--   - Tests: the theorems at concrete inputs.
--
-- How the code is read. A handler takes its state and returns the new one with a result, a count or
-- an error number. Device.Run has the value oops for a run that follows a pointer to no live
-- object, or past the end of a buffer: the code has no defined behaviour there. Functions of the
-- kernel and of the C library that the code calls, but for strtoll, are not modelled: what they
-- answer is an argument (the address that kmalloc returns, what copy_from_user misses, the
-- answers to bdtun_create_k in Registry.Create.Answers, the REQ_* masks and limits of the kernel in
-- Tunnel.Flags.Kernel). Machine integers wrap where the model says so: 32-bit use counts and
-- in-flight counters, 64-bit sizes and statistics. Structures have the layout of an LP64
-- little-endian machine.
--
-- Bounds and fuel. The loops of the module and the library go over lists of segments, devices,
-- bytes and, for a sleeping reader, over the times that it is woken. Only the listing loop of the
-- tool takes fuel, a bound on its rounds: one more than there are devices is what a listing needs.
-- Registry/Usage bounds the handles on a device by the number of files that the system opens, an
-- argument.
--
-- What is left out. The locks of a device are not part of its state, but for System/Locks, which
-- has the lock of the incoming list: a handler, or a section of one where System/Threads,
-- System/Locks and Registry/Usage take them apart, is a step. A submission is one step, though it
-- counts its bio after the lock is given back and the reader woken. A completion of an entry that
-- is on the incoming list holds one lock and a header read another, and the loops of a transfer and
-- a mapping hold none: System/Threads takes a header read whole, and a transfer or a mapping as the
-- read of data_current_bio and the whole loop. An entry of another device is no live entry of this
-- one. User memory that a handler reads or writes without copy_from_user or copy_to_user is taken
-- to be reachable. Pages are part of the bio that maps them, and are not shared. Bios still queued
-- when a device is removed are not followed. The Python binding is not modelled; of the tool, short
-- options and the texts that it prints.
pub mod Base
pub mod Header
pub mod Device
pub mod Block
pub mod Tunnel
pub mod Queue
pub mod System
pub mod Registry
pub mod Control
pub mod Module
pub mod Client
pub mod Tool
pub mod Tests
