-- ===== src/Lib.antt =====
-- Maitland detects packed malware in paravirtualised Xen guests. A kernel module in each guest (the
-- driver malpage, drivers/xen/malpage) tells a kernel module in the privileged domain (the driver
-- monitor, drivers/xen/monitor) about page faults and page table updates of its processes, over a
-- ring in one shared page. The monitor knows which processes are watched, and answers a suspicious
-- event with the request to report the process. The guest's reporter thread then halts the process,
-- shares its memory with the privileged domain and resumes it; a daemon reads the memory through
-- the monitor and has the process killed or resumed.
--
-- Parts and files
--   Base: lists, Boolean tests and the C integers over the native numbers, texts as lists of bytes
--     with their decimal numbers and separated fields, and `Run`, the result of code that may access
--     memory out of bounds (`fault`) or run out of fuel.
--   Wire: the structures that travel over the ring (`struct request_t`, `struct response_t`,
--     `process_report_t` of malpage.h and monitor.h), and each side's operation codes.
--   Ring: the shared page, the private halves of its two ends, and the interface to the macros of
--     Xen's ring.h, which the repository does not contain: `Macros` are the macros, `MacroLaws`
--     what ring.h documents of them. Both are arguments wherever a macro is used.
--   Monitor (drivers/xen/monitor/monitor.c): Watch is the store of watched processes
--     (monitor_watch, monitor_check_mmuupdate, monitor_check_page_fault, monitor_print_watched).
--     Handler is monitor_irq_handle and monitor_op_process. Grants is monitor_populate_report,
--     monitor_map_gref and monitor_report. Init is monitor_init and monitor_exit. Read is
--     monitor_read. Register is monitor_populate_info and monitor_register. State and Ioctl are the driver's variables and monitor_ioctl.
--   Malpage (drivers/xen/malpage/malpage.c): Hooks is malpage_do_page_fault and
--     malpage_multi_mmu_update. Irq is malpage_irq_handle. Reporter is malpage_report_thread, as a
--     step relation interleaved with the arrival of reports. Process is malpage_op_process. PfnList
--     is the linked list of frame numbers, over a heap. Walk is addr_to_mfn and the loops of
--     pfnlist_vmarea. Report is the list that pfnlist_vmarea builds, malpage_generate_report and
--     malpage_report. Guest holds the variables that Hooks, Irq and Reporter share.
--     Tables is pfnlist, the scan by page tables. Register is malpage_register with
--     malpage_setup_ring, malpage_get_uuid and malpage_get_domid. Send is malpage_xs_report,
--     malpage_xs_watch, malpage_watch and malpage_ioctl. Init is malpage_init and malpage_exit.
--     DumpFile is malpage_dump_file.
--   Kernel: the functions of the guest's kernel that call the hooks: do_page_fault
--     (linux-2.6-pvops.git/arch/x86/mm/fault.c) and the updates of a page table entry
--     (linux-2.6-pvops.git/arch/x86/xen/mmu.c).
--   XenStore: the interface to XenStore, which is not part of the repository: `XenStore` are its
--     operations, `IsLawful` what is documented of them. Both are arguments wherever it is used.
--   Daemon (dom0/python_server/main.py): watch_domain_up, watch_domain_down, watch_domain_register,
--     watch_domain_report and watch_domain_watchreport, on the store that the guest leaves.
--   Service (dom0/service_interface): monitorSubmitHash, with its table of earlier verdicts.
--   Clients (domU/c_client/umalpage.c, dom0/c_client/umonitor.c, domU/c_loader/main.c): the C programs
--     that use the drivers.
--   System: cycles of the two drivers together (the fault hook, the monitor's handler and the
--     guest's handler, on the same page; Cycle/Kernel has the kernel's page fault handler before the
--     hook), and the ways from the guest through XenStore and the daemon to the monitor: a
--     registration, and a request to watch a process. Delivery is the way of a report through the
--     daemon's commands to the driver and back to a signal in the guest.
--   Tests: concrete data, to which the theorems are applied.
-- The children of a part hold its theorems, and are named for what they prove.
--
-- Correspondence. A function keeps its name in the C code, less the prefix `malpage_` or
-- `monitor_`; a field and a constant keep theirs. Kernel functions and hypercalls are not part of
-- the repository: what they return is an argument (`MapEnv`, `RegisterEnv`, `AddrEnv`, `PageWalk`,
-- `Tasks`, `Kernel`, and the room of an allocation), as is the first value of a local that C leaves
-- uninitialised. Output to the log is left out. A pointer to a page or to an info structure is the
-- structure or its number; the frame list alone has a heap, since its correctness is one of
-- pointers.
--
-- Bounds and fuel. Ring indices are numbers below 2 ^ 32 and wrap. A handler's loop gets one round
-- more than there are indices from its start to its end, the jump back of malpage_irq_handle one
-- repetition, the loops of monitor_read and of pfnlist_vmarea one round more than the number of
-- blocks or half pages; each is proved to be enough. The functions on the frame list take
-- their fuel as an argument, and more fuel than the list has nodes is proved to be enough.
--
-- A transaction is the list of what it does, and takes effect as a whole if it commits; the guest
-- ignores whether it did. An exception of Python is `none`.
--
-- Not modelled: malpage's hooks that only return 0, and functions that nothing calls, but for
-- malpage_dump_file. malpage_report is one action of the reporter, and a function apart. Of the
-- daemon, its main function, the permissions and the watches that are set, and what a handler does
-- behind an exception are left out, and the copy of the memory to a file: it reads monitor_read
-- through the buffers of Python and the C library, so whether it ends is an argument, and whether
-- grep finds the search string is another. A number is a text of digits: the sign and blanks that
-- int() takes too, and the guest's driver never writes, are outside the model. The untested allocations of
-- a queue's node in malpage_irq_handle, of an info structure and of a request to watch are taken to
-- succeed; those of a report, of its list of areas and of a domain's array of processes are not.
-- The table of verdicts is not changed by another client during a call. Of the Linux kernel, only
-- the functions that call the hooks are modelled: the rest is not the repository's own code. The
-- scripts, the sample targets and the packers are outside the drivers, the daemon and the programs.
pub mod Base
pub mod Clients
pub mod Daemon
pub mod Kernel
pub mod Malpage
pub mod Monitor
pub mod Ring
pub mod Service
pub mod System
pub mod Tests
pub mod Wire
pub mod XenStore
