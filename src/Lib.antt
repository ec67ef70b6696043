-- ===== src/Lib.antt =====
-- Verification of parts of the bunix kernel and of the library that its servers share.
--
-- The kernel hands out physical memory by pages (kernel/pmm.c). Its objects are found by name or by
-- identifier through binary search trees (kernel/tree.h, with a copy in user/include/bunix/tree.h).
-- Tasks and servers talk through ports (kernel/ipc.c), which are kept in two such trees. Servers
-- keep their own objects in tables of identifiers (user/include/bunix/id_table.h). Kernel services
-- are registered by name in two trees as well (kernel/name.c), and large data goes between tasks in
-- shared buffers (kernel/buffer.c), which messages refer to.
--
-- Common holds what the parts share: the tests of C on unsigned numbers, machine words with their
-- wrap-around written out, lists with native indices.
--
-- Pmm is kernel/pmm.c. The state `Pmm` is the page array, the free list as indices into the array,
-- and the counters. Pmm/Setup is the set-up from the memory map (`pmm_init_from_ranges` and what it
-- calls), whose endless loop for want of room is `none`; Pmm itself has the calls made afterwards,
-- from `pmm_page_alloc` to `pmm_pages_free_contiguous`. Pmm/Invariant states that list, marks and
-- counter agree; Alloc, Contiguous, Refs, Import, Reserve and Boot prove what the calls do, and
-- Calls puts them in sequence. The loops are over lists, or over the number of pages of a range,
-- which is computed from its two ends before they start.
--
-- Tree is kernel/tree.h, both kinds of tree at once. A pointer to a node is a cursor, which holds
-- the way up to the root as the `parent` links give it. Tree/Ops has the operations with the
-- counter, Tree/Wide and Tree/Names their two instances. Tree/Laws shows that the tree is a finite
-- map, on top of the order of the nodes (Order, Shape, Search, Insert, Remove, Lookup); Tree/Walk
-- is the loop by `next_node`, with one step of fuel for each node and one for the end.
--
-- IdTable is id_table.h: the table that grows, and in IdTable/Map the map over the tree, with its
-- theorems in IdTable/Map/Set. Whether memory is found is an argument.
--
-- Ipc is kernel/ipc.c. Ipc/State has the ports, the waits of threads and the statistics; a port
-- pointer is a number. Ipc/Lifecycle makes, finds and drops ports and counts references, Ipc/Send
-- and Ipc/Receive are the calls. A function here is what runs under `ipc_lock` without a break, so
-- a call that blocks is two functions, and other processors may run between them; Ipc/Interleave
-- has a step for each. Ipc/Quiet, Sleep and Order prove the invariants. What the slab allocator and
-- the scheduler (`thread_handoff`) answer are arguments, and waking a thread is part of the result.
--
-- NameService is kernel/name.c: the entries behind their pointers, with the two trees.
-- NameService/Laws states how the trees and the entries fit together, Register and Update what a
-- registration does to a new name and to one in use.
--
-- Buffer is kernel/buffer.c. A buffer holds its block as a list of bytes, and an access outside of
-- it would be a `fault`; Buffer/Access shows that there is none, Buffer/Count is about sequences of
-- calls and about references.
--
-- VmRegions is the part of kernel/sched.c that keeps the memory regions of a task. VmRegions itself
-- has the table, removing and protecting, VmRegions/Add has adding and extending. What the table
-- says is counted address by address (Count): how many regions with given attributes hold it. Cut
-- has the parts of a region that a range meets; Remove, Cover, Steps, Protect, Protected, Added,
-- Joined and Extended are about single calls, Calls about sequences of them, Full about a table
-- that cannot grow. The loops that split regions have fuel for every entry and the parts that are
-- split off it.
--
-- RunQueue is the part of kernel/sched.c that keeps the run queue of a processor, as the list of
-- its threads. RunQueue/Order is the order by deadlines and the place of a new thread, Laws and
-- Removal are the operations, Runs is sequences of them, Deadline the times that a thread gets as
-- it is queued. All loops are over the list.
--
-- Handles is the part of kernel/sched.c that keeps the handles of a task, its capabilities. Whether
-- an object can be retained is an argument. Handles/Rights and Share are about the rights of
-- handles that tasks pass on, Granted about what a new handle leads to. The loop that grants a
-- handle searches a table that has just grown at its new entries only.
--
-- VmRegions/Place gives an address the place in its file that its region gives it, which adding and
-- extending keep, where removing and protecting keep the offset that is recorded and not the place.
-- VmRegions/Full is about tables that are full at any size. task_add_or_extend_vm_mapping drops the
-- lock before it calls task_add_vm_mapping; sequences of calls have its first section as a call of
-- its own, so that others may come between. Ipc/Waiting is about a thread asleep on a port and who
-- wakes it. Pmm/Addresses has the addresses of the page array, Pmm/Reserved what a reservation
-- takes in numbers that do not wrap.
--
-- Not modelled: locks themselves, log lines, `ipc_call_kernel` and the snapshot of the statistics,
-- which only call what is modelled; the states of threads and the other parts of the scheduler,
-- address spaces, boot formats, the ports to processors, drivers and servers, for their size or
-- since they talk to hardware.
pub mod Common
pub mod Pmm
pub mod Tree
pub mod IdTable
pub mod Ipc
pub mod NameService
pub mod Buffer
pub mod VmRegions
pub mod RunQueue
pub mod Handles
