-- ===== src/Lib.antt =====
-- Verification of the power monitors: programs that sample the energy, frequency and temperature
-- registers of a machine's processors. `powmon` is a daemon that publishes them, `pow_node_smp`
-- prints them on the screen, `energy-app` measures the energy of one program run, and `powmpi` that of
-- an MPI program, on each of its nodes. All open the devices /dev/cpu/N/msr and find the topology in
-- /proc/cpuinfo.
--
-- How the parts interact: the programs detect the processor model and the topology, size one record
-- for each package and each core by it, and then sweep over the cores. A sweep reads a package's
-- registers only on core 0 and on the middle core, the leaders, and computes the package from the
-- core's number.
--
-- Which file models what:
--   Base          numbers, lists, integers and machine words that all the files share
--   Machine       the machine as a parameter, the trace of the calls made to it, and commands that
--                 return, exit or fault; Machine/Rules has the rules for what a command leaves
--   Msr           open_msr, read_msr, write_msr, read_tsc and set_cpu_affinity of
--                 powmon/bin/sensor_read_lib.c; Msr/Addresses the constants of sensor_read_lib.h;
--                 Msr/Events the predicates on traces; Msr/Laws how each call passes on
--   Clib          fgets, strncmp and sscanf, as far as the sources use them, on lists of bytes
--   PowMon/Data   the structures of powmon/bin/sensor_read_lib.h
--   PowMon/Detect detect_topology and detect_cpu_model of powmon/bin/sensor_read_lib.c
--   PowMon/Sensor read_msr_data, read_msr_data_first and program_msr of the same file
--   Leaders       the loop over the leader cores, with the work on one package as a parameter
--   EnergyApp     energy-app/sensor_read_lib.c and the measurement of energy-app/pow_mon.c
--   PowMon/Broker push_to_broker of powmon/bin/pow_mon.c, on a floating-point unit that is a parameter
--                 (Fpu); ForEach is its loop over the records
--   PowMon/Daemon daemon_status, daemon_stop and the modes of main in powmon/bin/pow_mon.c
--   PowMon/Daemonize daemonize of the same file, and main from the choice of the mode to it
--   PowMon/Connection on_connect_callback, and main where it connects to the broker and where it ends
--   PowMon/Frequency detect_nominal_frequency of powmon/bin/sensor_read_lib.c
--   PowMon/Start  main of powmon/bin/pow_mon.c from the detection to the first sampling
--   PowMon/Options the configuration, the command line and the names of the same main
--   PowMon/Run    samp_handler, start_timer, sig_handler and the loop of main with the timer, as a step
--                 relation
--   PowMon/Message on_message_callback of powmon/bin/pow_mon.c
--   PowMon/Program main from its options to the loop; PowMon/Entered its runs on a machine that
--                 refuses no access
--   Sweep         the loop over all cores, with the work on a package and on a core as parameters
--   NodeSmp       pow_node_smp/sensor_read_lib.c and pow_node_smp/pow_mon.c
--   NodeSmp/Main  the options of pow_node_smp/pow_mon.c and its main up to the loop; its runs on
--                 a machine that refuses no access are in NodeSmp/Main/Returns
--   EnergyApp/Main main and show_result of energy-app/pow_mon.c (EnergyApp/Report, EnergyApp/Program)
--   PowMpi        powmpi/sensor_read_lib.c; PowMpi/Process poli_init and poli_finalize of
--                 powmpi/powmpi.c; PowMpi/Election the colour of a node and its monitor; PowMpi/Report
--                 show_result; PowMpi/World all processes of a program between MPI_Init and
--                 MPI_Finalize, with the two barriers
--   Tests         concrete machines, data and files
--
-- How state and operations correspond: `struct sys_data` and the per-core and per-package structures
-- are records with the source's fields in lower case; a function that writes through the pointer to
-- `sys_data` takes the record and returns the new one. A C array is a list, and an index out of range
-- is a fault. A register access is an event of the trace, so that what was read, written, opened and
-- closed, and in which order, is part of every statement. `unsigned int` and `uint64_t` wrap
-- at 2 ^ 32 and 2 ^ 64. A `float` is the number that its bits spell.
--
-- Bounds and fuel: the loops over the cores run on the number of rounds left, which starts at
-- `NCORE`. The loop that reads a file takes a byte at least for each buffer, so it runs on as many
-- rounds as there are bytes. A buffer is 8192 bytes, as the source asks for `BUFSIZ`. The attempts to
-- connect to the broker have no bound in the source, so they run on fuel, and any number above that of
-- the failures is enough.
--
-- Assumptions: the kernel answers each call by any function of the calls before it, and the number of
-- sockets is at most `MAX_PACKAGES`. The program that energy-app runs, or the one that calls powmpi, is
-- any command that extends the trace with no unsafe write. `MPI_Comm_split` numbers the processes of a
-- colour in the order of their world ranks, and a barrier lets a process go on once all have called it.
--
-- Not modelled: the texts that are printed besides the values in them, the files that are only written
-- as logs, `my_sleep` and `get_timestamp` besides the value of the clock, functions that nothing calls
-- (`strsplit` of powmon, `poli_sync_node` of powmpi), and the freeing of memory and of communicators. An
-- interrupt that comes before the loop of powmon is entered ends the process, as no handler is set, and is
-- not a step. The loop of powmon without the timer is left out, as `USE_TIMER` is defined. powmon/lib
-- holds copies of iniparser and mosquitto, which are other projects.
pub mod Base
pub mod Clib
pub mod EnergyApp
pub mod ForEach
pub mod Fpu
pub mod Leaders
pub mod Machine
pub mod Msr
pub mod NodeSmp
pub mod PowMon
pub mod PowMpi
pub mod Sweep
pub mod Tests
