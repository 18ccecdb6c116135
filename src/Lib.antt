-- ===== src/Lib.antt =====
-- vmnet-helper connects a virtual machine to the vmnet framework of macOS. The program vmnet-helper starts a
-- vmnet interface and forwards packets between it and a datagram socket, in both directions; the program
-- vmnet-run starts vmnet-helper and a command, with a socket pair between them.
--
-- The parts, and the files that model them:
--
-- - Helper/Endpoint.antt: `struct endpoint` of programs/helper.c, with the arrays of packets, messages, iovecs and
--   buffers that `init_endpoint` allocates and binds to each other. A pointer into an array is an index, and the
--   buffers of an endpoint are one list of bytes. `calloc` is a parameter that says whether it succeeds.
-- - Helper/FromHost.antt: `read_from_host` and `packets_available`, the handler that vmnet calls when it has
--   packets: it reads a batch into the endpoint `host` and gives it to `write_to_vm`, until nothing is left.
-- - Helper/HostToVm.antt: `write_to_vm`, which sends a batch with `sendmsg_x` and falls back to `write` for each
--   packet, with retries while the socket has no buffer space, and its statistics.
-- - Helper/VmToHost.antt: `read_from_vm`, `write_to_host` and `forward_from_vm`, the loop of the other direction.
--   The flags that it returns are those that the code gives to `trigger_shutdown`.
-- - Behaviour.antt: a process as the calls that it makes of the system, each with what it does after every reply, so that a
--   theorem about it covers every reply. Behaviour/Protocol.antt: what holds of every run of a process, under a state
--   that follows its calls. Process.antt: the calls of vmnet-helper.
-- - Helper/Globals.antt: the global variables of programs/helper.c, its exit handlers, and `exit`, which runs them.
--   Helper/Discipline.antt: the rules by which the functions keep to a protocol.
-- - Helper/Socket.antt: `setup_socket`, with the lock file, the socket and the client. Helper/Socket/Sharing.antt: helpers
--   that run at the same time, as a step relation on their programs and the lock file.
-- - Helper/Interface.antt: `start_host_interface`, with the description of the interface.
-- - Helper/Events.antt: `setup_kq`, `run_until_termination`, the shutdown event and the exit status.
-- - Helper/Timestamp.antt: `iso_8601_timestamp`, the time of a statistics report.
-- - Helper/Report.antt: `report_stats` and `write_interface_info`, as the texts that they write. Json.antt: a reader for
--   such texts, which is not part of the programs.
-- - Helper/Startup.antt: `main` after `parse_options`, which calls the functions above in their order, and
--   `drop_privileges`.
-- - Broker.antt: broker/client.c, the request for a network, which `acquire_network_from_broker` makes.
-- - Options.antt: `parse_options` of programs/options.c, over the options that `getopt_long` returns, and the
--   parsers of their arguments.
-- - Os.antt: `os_product_version` of programs/os.c.
-- - Runner/Arguments.antt: `build_helper_argv` of programs/run.c, the command line of vmnet-helper.
-- - Runner/CommandLine.antt: `parse_options` of programs/run.c.
-- - Runner/Handover.antt: what vmnet-helper reads from the arguments that vmnet-run has built.
-- - Runner/Processes.antt: tables of descriptors, and what a return of `waitpid` means for the exit status.
-- - Runner/Calls.antt, Runner/Globals.antt, Runner/Main.antt: `main` of programs/run.c, with every call that it makes of
--   the system, its exit handler and its signals, in vmnet-run and in its children until `execvp`. A child goes on with the
--   program of its parent after `fork`, which has returned 0.
-- - Common.antt: the buffer sizes of programs/common.h.
-- - Libc.antt: `strtol` in base 10, and `printf` of a number. System.antt: the calls of the system and of vmnet, as records of operations
--   on a state, with what the code relies on as named predicates (`IsDatagramSocket`, `IsVmnetReader`,
--   `IsPacketSource`, `IsPacketSink`). Prelude.antt: shared names, lists, words, and `Outcome`, how a piece of a
--   program can end: it goes on, it exits with a status, an assertion fails, or the fuel of a loop is used up.
-- - Scenarios.antt: concrete systems that keep to these contracts, and runs on them.
--
-- Numbers. Sizes and counters are natural numbers. Where the code adds to a `uint64_t` counter or a size the sum
-- is taken modulo 2^64 (`u64`).
--
-- Fuel. The fast path of `write_to_vm` gets one round for each packet of the batch, one for each retry, and one more:
-- each round sends a packet, uses a retry, or is the last. The inner loop of the slow path gets one round more than there
-- are retries. `packets_available` and `forward_from_vm` run as long as packets come; their fuel is a parameter,
-- and one round more than there are packets waiting is enough.
--
-- `main` of vmnet-helper has as many rounds as its parameter says for each waiting loop: what it never does holds for any
-- number, and one round more than there are events that leave the loop waiting is enough for `run_until_termination`.
-- `wait_for_command` of vmnet-run waits for a number of rounds, and its exit handler waits for its children in as many.
--
-- Assumptions. `open` with O_EXLOCK opens and locks the file at a path in one step. A call of vmnet that starts an
-- interface is one step with the wait for its callback. The program is built with the SDK of macOS 26, so that `--network`
-- is there. `uuid_is_null` is a parameter. Texts are UTF-8. What is documented of
-- `getopt_long` for a table of long options is `ReadsOptions` of Runner/Handover.antt. The time that `report_stats` reads
-- has the bounds that `Clock` of Process.antt names.
--
-- Not modelled: log lines but that of the statistics, dispatch queues, the table `long_options` of programs/run.c, the exit
-- of `trigger_shutdown` on the queue of the virtual machine, which is not part of `main`, and the moment at which the signal handler of
-- vmnet-run runs, which only the replies of `waitpid` and `wait` show. What `getopt_long` returns is the input of both
-- `parse_options`.
pub mod Prelude
pub mod System
pub mod Common
pub mod Json
pub mod Behaviour
pub mod Process
pub mod Helper
pub mod Broker
pub mod Libc
pub mod Options
pub mod Os
pub mod Runner
pub mod Scenarios
