-- ===== src/Kernel.antt =====
-- The places of the guest's kernel that call the hooks of malpage: the page fault handler
-- (linux-2.6-pvops.git/arch/x86/mm/fault.c) and the updates of page table entries under Xen
-- (linux-2.6-pvops.git/arch/x86/xen/mmu.c). The rest of the kernel is not part of the repository's
-- own code.
pub mod Fault
pub mod Mmu
