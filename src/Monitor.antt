-- ===== src/Monitor.antt =====
-- drivers/xen/monitor/monitor.c, the driver in dom0. Its parts are the children: the store of watched
-- processes, the event channel, the registration of guests, the mapping of reported pages, the read
-- of their contents, and the commands of the daemon.
pub mod Grants
pub mod Handler
pub mod Init
pub mod Ioctl
pub mod Read
pub mod Register
pub mod State
pub mod Watch
