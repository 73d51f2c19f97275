-- ===== src/Lib.antt =====
-- YanOS: the RV32IM machine, its image loader, and the core of the guest system on it.
--
-- The machine is a hart, RAM, four devices and the bus that joins them. Its host assembles it,
-- loads an image at the start of RAM, and steps it: a step advances the timer, samples the lines
-- of the devices into the interrupt controller, and executes one instruction boundary of the hart,
-- which reads and writes RAM and the devices through the bus. The guest's runtime switches between
-- eight tasks, which wait for the interrupts of the transport and of the UART; its line reader
-- waits for typed bytes; the arena, the sort and the loader serve both sides.
--
-- The files and the code that each one models:
--
--   Status      include/yan/status.h: YanStatus, the result of the calls.
--   Platform    the windows and interrupt lines in the headers of include/yan.
--   Ram         src/ram.c: the byte store, little-endian access of 1, 2 and 4 bytes.
--   Clint       src/interrupt.c, yan_clint_*: time, comparator and the software interrupt.
--   Plic        src/interrupt.c, yan_plic_* and plic_select: arbitration, claim, completion and
--               the gateways.
--   Uart        src/uart.c: the character device.
--   Transport   src/transport.c: the two rings that guest and host share.
--   Bus         src/bus.c: decoding, data access, fetch.
--   Csr         src/csr.c: the control and status registers.
--   Cpu         src/cpu.c: the hart's state, registers, reset, fetch and poll.
--   Alu         src/cpu.c: the arithmetic of RV32I and of the M extension.
--   Execute     src/cpu.c: what one instruction computes, loads, stores, or does to a CSR.
--   Step        src/cpu.c: yan_cpu_step with its traps and interrupts.
--   Machine     src/machine.c: assembly, reset, image loading, ticks, sampling, the step.
--   Difftest    src/difftest.c: the comparison of two harts.
--   Image       src/image.c: the ELF loader, the list of segments and the symbol lookup.
--   Task        os/task.c: the cooperative runtime of the guest, its scheduler and trap handler;
--               Task/System is the runtime as a system of steps.
--   Line        os/line.c: the interrupt-driven line reader; Line/Grammar is the grammar of lines
--               in os/line.h, on the typed bytes alone.
--   Arena       os/arena.c: the bump arena.
--   Memory      os/memory.c: memcpy and memmove, by words and bytes.
--   Sort        os/sort.h: the heapsort of indices.
--   Text        os/search_text.c: the UTF-8 checks and decoder, ASCII words and folding.
--   Host        the calls that the devices make of the host.
--   Base        shared helpers: tests, lists, digits of words, integers.
--   Tests       concrete runs.
--
-- How state and operations correspond to the code. A struct is a record with the struct's fields;
-- a function that changes its object returns the object. A value stored through a pointer comes
-- back in a tuple, and the function takes what the pointer holds before the call, so that a
-- failure is seen to keep it. Functions keep their C names without the prefix of their module:
-- yan_plic_set_level is Plic.set_level. A uint32_t or uint64_t is a natural number with the
-- wrap-around written out where the code can wrap.
--
-- A pointer to an object is the object, so a NULL object is not a state of the model, and the
-- checks for it are left out: such a call returns at once and changes nothing. Where NULL is
-- a state of the system it is modelled: RAM without a buffer, a bus without a device, no terminal,
-- no notification, no image. A bus of a machine holds links, which name the machine's own objects
-- or other ones.
--
-- The host is a parameter. Whether calloc finds memory is an argument of the calls that allocate.
-- Whether the UART's backend can accept a byte is the argument `ready` of the calls that may ask;
-- that question is no effect. The calls of tx_write and of the transport's notify are a list of
-- effects in their order, and what the host does in them is not modelled. The
-- bytes of the rings lie in guest RAM; the device keeps their pointers, as in the code.
--
-- The loops are structural recursion on the rounds left: the bytes of an access, the 31 sources of
-- the interrupt controller, the 32 registers of a comparison, the entries of an ELF table, the
-- slots of a scan, and in the copies the blocks of eight words, the words and the bytes that the
-- size still holds. Three loops run on fuel. The sift-down of the sort gets the count of entries, and
-- each of its rounds moves at least one place towards the end. The loop over the symbols of a table
-- gets one round for each 16 bytes of the table and one more, and each round moves by 16 bytes. The
-- check of a whole UTF-8 text gets one round for each byte and one more, and each round that goes on
-- moves by a byte at least. In all three a result of `none` would be a run out of fuel.
--
-- In the runtime of the tasks a call stops where it enters the context switch, with `current`
-- naming the slot that goes on. An interrupt may come between any two steps, also between the state
-- that a call writes and the reschedule that follows; a reschedule, with its
-- scan, the state that it writes and the hand-over, is one step. The claim of
-- the interrupt controller and the status of the transport are arguments of the trap handler, and
-- its calls of the devices are effects. A panic disables the interrupts and ends the run with its
-- code. The predicate of a wait is its answer.
--
-- In the line reader a round of the loop has the answers of the callbacks that it asks, and the
-- calls that it makes are a list in their order. The rounds of a run are a list; where the list
-- ends the reader still waits.
--
-- size_t and uintptr_t: the loader's size_t has 64 bits, so that no sum of two or three fields of an
-- image wraps; the arena and the line reader take UINTPTR_MAX as an argument.
--
-- A copy's memory is a function from addresses to bytes, and its addresses do not wrap: the two
-- ranges lie in the address space.
--
-- Not modelled: memset, memcmp and strlen (os/memory.c); the report of the differential tester,
-- which is text written by vsnprintf; the context switch, the trap entry and the trampoline of the
-- tasks, which are assembly or a jump to the task's entry, and the line that a panic prints; the
-- rest of the guest system (os): the shell, the editor, the block driver, the file system, notes and
-- the term search; the host's note tools and semantic search (host), the command-line tools and the
-- MCP server (tools), and the terminal program (apps).
pub mod Base
pub mod Status
pub mod Platform
pub mod Host
pub mod Ram
pub mod Image
pub mod Sort
pub mod Text
pub mod Arena
pub mod Memory
pub mod Line
pub mod Task
pub mod Clint
pub mod Plic
pub mod Uart
pub mod Transport
pub mod Bus
pub mod Csr
pub mod Alu
pub mod Cpu
pub mod Execute
pub mod Step
pub mod Machine
pub mod Difftest
pub mod Tests
