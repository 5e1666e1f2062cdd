-- ===== src/Lib.antt =====
-- EmbedTemplate: firmware with a command line, drivers and a thermal simulation, on bare metal or
-- FreeRTOS. The library models its core and states what makes it correct.
--
-- Parts and files (paths from the root of the repository):
--   Fifo      common/src/fifo.c, the byte FIFO between the console's interrupt and its reader.
--             Fifo.antt has the four functions, Fifo/Queue the queue that they promise,
--             Fifo/Refine the invariant and the refinement, Fifo/Threads the two sides cut at
--             their atomic accesses, Fifo/Threads/Inv and Safety the proof for all interleavings,
--             Fifo/Threads/Alone the steps of one thread alone.
--   Gpio      src/drivers/gpio/gpio.c over the registers of
--             src/drivers/include/regs/gpio_demo_regs.h (Gpio/Regs), in the build without USE_HW,
--             where registers are plain memory. Gpio/Pins, Gpio/Irq and Gpio/Watchdog prove what
--             the calls do to the registers bit by bit.
--   Sim       port/freertos_sim.c. Sim/Config/Init, Set and Get are the configuration
--             (temp_ctrl_cfg_init, reset_sim_state, set_sim_cfg, get_sim_cfg), Sim/Regulation the
--             control task's run_temperature_regulation, Sim/Hardware one millisecond of
--             vHardwareSimTask, Sim/System both tasks with every interleaving of their steps,
--             Sim/Modes the commands sim_start, sim_suspend, sim_pause and sim_resume with the
--             hardware task between the places where it blocks.
--             The regulation reads and writes the registers through the functions of Gpio; the
--             simulator accesses their fields, as the C code does. Sim.Stream is the stream_t of
--             common/include/pack.h.
--   Clock     port/arm/cortex-m/time.c, get_timestamp over a 32-bit cycle counter.
--   Pci       src/drivers/pci/pci_rc.c with ENABLE_PCI, pci_utils.c and src/drivers/include/pci.h.
--             Pci/Data is the database, Pci/Config the accesses to the configuration space,
--             Pci/Bars the sizing of a device's base address registers, Pci/Scan the enumeration
--             (do_pci_scan, pci_scan), Pci/Alloc pci_alloc, Pci/Caps the capability walk and the
--             interrupt set-up, Pci/Utils the searches and pci_utils.c. The children Rule,
--             Invariant, Restores, Size, Windows, Devices, Walk, Find and Window hold proofs.
--             The configuration space is hardware: a parameter, Ecam, and BarLaws states what PCI
--             documents of its base address registers. The registration of an interrupt with the
--             port is a parameter, MsiPort.
--   Log       common/src/diagnostic/logging/log_infra.c. Log/Memory is copy_u64, the copies into the
--             ring and out of it and the padding, Log/Entry one entry as it is written and read,
--             Log/Dispatch log_dispatch, Log/Flash log_flash, Log/Levels the levels and log_msg;
--             Log/Queue proves that the ring is a queue of messages.
--   Cli       common/src/cli/cli_mini.c, its line editor: Cli.antt has the keys, Cli/Line the
--             invariant of the buffer and its bitmap, Cli/Keys the lines that keys give,
--             Cli/Tokens cli_tokenize with its proof in Scan, Found, Cut and Line. The loop of
--             run_keys is that of port/event_loop_main.c, up to the end of the input or on_quit.
--             Cli/Commands is cli_process_str, whose printing is a value, Action; Strings and
--             Spelled relate the words of a line with the strings that are left in the buffer,
--             Answer and Line with what the line does.
--             The memory behind the buffer is a parameter.
--   Menu      common/src/cli/cli_test.c, with the functions of common/src/cli/cli_main.c and
--             cli_system.c on the same cli_data: the test menus as functions of the state, and
--             Menu/Line a line of the command line, given the command that it names. An access
--             outside a registry, or through the null pointer, is `none`. Menu/Valid and
--             Menu/Safety are the states of the test menus and the accesses from them, Menu/Back
--             the way out.
--   Names     common/src/cli/cli_system.c: the hash tables from the names of the log's domains,
--             entities and levels to their numbers, over the names in common/src/cli/cli_main.c
--             (Names/Strings). Names/Slots, Frees, Lookup, Stored and Insert prove the
--             open-addressing map, Init and Found the tables after cli_log_cmd_init. Names/SetLog
--             is `set log`, over log_set_level of Log/Levels; its words are arguments, since the
--             library of the command line cuts them out.
--   Profiler  common/src/diagnostic/profiler/profiler.c. Profiler.antt is the state and the perfect
--             hash, Profiler/Seed the search of its seed and init_profiler, Profiler/Hooks the
--             hooks of the compiler, prof_stop and prof_start, Profiler/Stats prof_get_stats;
--             Profiler/Record is the plain record of calls that they promise, its children
--             Invariant, Begin, Finish, Report and Refine the proof. Perfect, Chains, Walk and
--             Tally hold lemmas. The addresses of the listed functions are a parameter, Target.
--   Mtimer    port/riscv/gd32vf103/time.c, timestamps and the tick from a 64-bit timer that is read
--             and written by halves; Mtimer/Reads and Mtimer/Ticks hold the proofs. The count of
--             the timer at each access is a parameter, Mtime, and Counts states what is relied on.
--   Irq       port/arm/cortex-a/gic.c and port/x86/x86-virt/apic.c. Irq.antt is the tables of the
--             handlers that both keep and the call through them, Irq/Table the map that they
--             promise, Irq/Gic and Irq/Apic the lines of each controller and its dispatch. A
--             handler is a number; a call through a null pointer or from outside a table is a
--             fault. The writes of init_gic and init_apic to the controllers, the priorities
--             of the hardware and the descriptor table of the x86 are left out.
--   Prelude   Boolean tests, arrays as lists, bits of words, and signed integers with C's
--             division and the wrap of a 16-bit store.
--
-- State is passed: a C function over static or register state takes the state and gives the new
-- one beside its result. Numbers are the native ones, and the wraps of the C types are written
-- out where a value can reach them. Every definition is total. Loops are a number of iterations
-- (Sim.Hardware.ticks, Pci.Scan.scan_devs), a list of steps (Fifo.Threads.schedule) or fuel: the
-- recursion of do_pci_scan has 256, one for each bus, which is proved to be enough, the loop over
-- the base address registers 6, one for each of them, and the capability walk has the code's own
-- bound of 16. The loops of log_dispatch and log_flash have 257, since an entry takes 16 bytes or
-- more of the 4096, and that of prof_get_stats over a list has 1025, one more than there
-- are samples. The loops over a name table have one round for each slot, which is proved to be
-- enough. The read of the machine timer has two rounds, which are proved to be enough.
--
-- A step of a task (a millisecond of the hardware, a pass of the control task) is taken as a
-- whole; pre-emption inside a pass is not modelled. The calls of FreeRTOS (delay, notification)
-- appear as the notification flag and as the steps of the schedule. Log output is left out.
-- Not modelled: the creation of the tasks, the terminal and the printing of cli_mini.c, the
-- completion, printing and remaining commands of the other command line, concurrent calls of
-- log_dispatch and log_flash, the printing of the PCI database, the rest of the ports, the C
-- library shims, the tests, and the third-party command line.
pub mod Cli
pub mod Clock
pub mod Fifo
pub mod Gpio
pub mod Irq
pub mod Log
pub mod Menu
pub mod Mtimer
pub mod Names
pub mod Pci
pub mod Prelude
pub mod Profiler
pub mod Sim
