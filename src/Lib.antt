-- ===== src/Lib.antt =====
-- Verification of programs of the computer networks assignments. The repository is a collection of
-- small C and C++ programs; each program, or group of functions, has a module of its own, and the programs
-- that call the operating system share one model of it.
--
-- Parts and files
--   Prelude.antt         names from the library, tests on numbers, lists, and ℤ over the native ℕ.
--   Checksum.antt        `csum` of RAW_Sockets_Assignment_20/packet_sniffing/udp_sender.c. The buffer is
--                        a list of bytes, read as little-endian words; a read outside it is `none`.
--   MathRpc.antt         `mathproc_1_svc` of Hamming_code_RPC_Assignment_19/rpc/rpc_math/
--                        MathSpec_server.c. An `int` is the residue of its value modulo 2 ^ 32; a trap
--                        or an access outside `arr` is `none`.
--   DigitSum.antt        `addproc_1_svc` of Hamming_code_RPC_Assignment_19/rpc/rpc_practice/
--                        digsum_server.c, over integers. Its loops run on fuel; 20 rounds are enough
--                        for every number of magnitude at most 2 ^ 63.
--   Chardev.antt         the driver Device_driver_Assignment_11/chardev/chardev.c: its static variables
--                        are the record `Device`, its file operations functions on it.
--   Os.antt              system calls. A run is given an operating system that answers each call from
--                        the calls made before, and it returns, exits or does what C leaves undefined,
--                        with the trace of its calls. The operating system is a parameter everywhere.
--                        Os/Life.antt reads the state of a socket off a trace, Os/Bind.antt takes runs
--                        apart.
--   Sockets.antt         functions_needed.c, on Os.antt.
--   Inetd.antt           `sig_handler`, `encrypt` and the loop of `main` in INETD_Assignment_18/
--                        dynamic_inetd/supserver.c. The lines of the configuration file still unread
--                        are a part of the state. `htons(atoi(…))` is a parameter.
--   Nitnetd.antt         the counting semaphores and the loop of `main` in End_lab_exam/ques_1/
--                        nitnetd.c, with the services, `encrypt` and the UDP branch of Inetd.antt and
--                        `send_fd` of Sockets.antt.
--   Aos.antt             `main` of Mid_exam/Q1/aos.c, on Os.antt and Sockets.antt.
--   Chat.antt            Message Queues: Assignment_8/q5_chat_server/s.c: the table of clients and the
--                        two queues as lists of messages; a write behind the table is `none`.
--   MnServer.antt        m-n-server-client-NITW-Passport_Assignment_21/m-n-serv_cli/server.c: the thread
--                        functions for a number of rounds, the opening of the ports, and one round of
--                        the loop.
--   Iss.antt             the loop of `main` in RAW_Sockets_Assignment_20/Swyamabhoo_server_with_tracer/
--                        iss.c; `map` is a function on ports, an index outside it is undefined.
--   Chksum.antt          `chksum` of RAW_Sockets_Assignment_20/IP_Spoofing/sender.c, on the same buffers
--                        as Checksum.antt.
--   Vram.antt            Device_driver_Assignment_11/Device-Dirvers-2/MY/VRAM/video_ram.c. The video
--                        memory is a function on offsets; an access behind it is `none`. A pointer
--                        that the kernel returns is NULL, an ERR_PTR or one to an object.
--   TickTock.antt        Device_driver_Assignment_11/Device-Dirvers-2/MY/TickTock/tickTock.c. The loop
--                        of `itoa` runs on fuel; an `int` has 10 digits, and 11 rounds are enough.
--   Groups.antt          the sender and the director of Everything till now:Assignment_7, S.c and D.c:
--                        a handler is a run, and the sender a relation of steps, each the handling of
--                        a signal or a round of its polling.
--   Tracer.antt          tracer.c of RAW_Sockets_Assignment_20/Swyamabhoo_server_with_tracer, the table
--                        of ports that service.c fills in, and the listing of client.c. What libpcap
--                        captures is a parameter; the client listens for a number of datagrams.
--   IssService.antt      service.c of the same directory, the services that iss.c, in Iss.antt, listens
--                        for. An `FD_SET` of a negative descriptor is undefined.
--   At.antt              `main` of Mid_exam/Q2/at.c, on Os.antt and Sockets.antt, with `select` and the
--                        layout of `struct student` as parameters.
--   Arp.antt             ARP_Assignment_22: `main` of ARP_eth_frame/send.c (the same file as
--                        ARP_header/send.c) and of ARP_header/reply.c. The loop of reply.c is on fuel, a
--                        unit for each `recv`; Arp/Listening says how many are enough.
--   Sniff.antt           `PrintData` of RAW_Sockets_Assignment_20/packet_sniffing/sniff.c;
--                        Sniff/Packets has the headers, `ProcessPacket` and the loop of `main` over the
--                        packets until `recvfrom` fails. Memory that a pointer does not reach, and a
--                        counter at its greatest, are faults. Sniff/Rows has the dump row by row.
--   Platform.antt        `main` and `cli_conn` of Mid_exam/Q2/r2.c, on Os.antt, Sockets.antt and the sets of
--                        At.antt, with `select` and the layout of `struct student` as parameters. The
--                        trace shows what came (`received`) and what was passed on (`passings`).
--   Hamming.antt         hamming_code_gen.cpp (`generate`) and hamming_code_check.cpp (`check`) of
--                        Hamming_code_RPC_Assignment_19/Hamming_Code. The loops for the number of parity
--                        bits are on fuel, the length plus two and plus one; Hamming/Lengths shows that
--                        it is enough. `log2` and `pow` are taken to be exact.
--
-- Each module has its laws in child modules named for what they prove, and concrete runs in a child
-- named Cases.
--
-- What is not modelled: text printed on the terminal, unless a failure is told from a success by it or
-- it is the program's result, and but for what r2.c leaves undefined when it prints a message;
-- the contents of socket addresses beyond a path, or a port and its kind of address; the allocation
-- of the control buffer of `send_fd`, which is taken to succeed; the length of `sun_path`; signals
-- that arrive in the middle of a round. The loops of the servers do not end; the model has one round
-- of each, as a function of what `select` returned. The programs of the other directories are listed
-- in the manifest with the reason why they are left out.
pub mod Aos
pub mod Arp
pub mod At
pub mod Chardev
pub mod Chat
pub mod Checksum
pub mod Chksum
pub mod DigitSum
pub mod Groups
pub mod Hamming
pub mod Inetd
pub mod Iss
pub mod IssService
pub mod MathRpc
pub mod MnServer
pub mod Nitnetd
pub mod Os
pub mod Platform
pub mod Prelude
pub mod Sniff
pub mod Sockets
pub mod TickTock
pub mod Tracer
pub mod Vram
