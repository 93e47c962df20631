-- ===== src/Malpage.antt =====
-- drivers/xen/malpage/malpage.c, the driver in a guest. Its parts are the children: the signals to
-- processes, the kernel hooks that send requests, the event channel's handler, the reporter thread,
-- the walk of a process's memory with its list of frames, and the report.
pub mod Process
pub mod DumpFile
pub mod Guest
pub mod Hooks
pub mod Irq
pub mod PfnList
pub mod Report
pub mod Reporter
pub mod Walk
pub mod Tables
pub mod Register
pub mod Init
pub mod Send
