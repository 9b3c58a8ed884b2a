-- ===== src/Lib.antt =====
-- The verification library of the course projects on advanced Unix: a character device that
-- encrypts what is written to it (hw3/cipher), a server that matches supplies with demands
-- (hw1/supdemserv.c), and a system call (hw2/mm536.c).
--
-- The system call check_addr of hw2/mm536.c reports the memory area of an address.
--   CheckAddr.antt       the call, with what it uses of the kernel as a parameter; CheckAddr/Laws
--                        which area it finds, CheckAddr/Reports what it says of it.
--
-- The cipher device: processes open it for reading or for writing, and writers append bytes that
-- are stored encrypted in a list of buckets of 256 bytes; each reader walks that list at its own
-- pace and decrypts. Buckets count their references, and a process that leaves a bucket gives one
-- up. Every file operation works on one device under its mutex, so the model runs each operation
-- as a whole: the processes interleave between operations only. (CIPHER_IOCQREM reads the file's
-- position just before it takes the mutex; the model reads it within.)
--   Cipher/Device.antt   struct bucket, fcontext and cipher_dev of hw3/cipher/cipher.c, and the
--                        list_head operations; a pointer to a bucket is the number of its
--                        allocation, so one to a freed bucket finds nothing. Device/Valid holds
--                        the well-formedness of a device, Device/Contents the bytes it stores.
--   Cipher/Key.antt      cipher_xor_buffer; Key/Stream the specification of the cipher.
--   Cipher/Loop.antt     the `while` loops as a step function; Loop/Rule the rule for them.
--   Cipher/File.antt     cipher_open, cipher_release, cipher_llseek.
--   Cipher/Read.antt     cipher_read: Read/Safety that it ends, Read/Unread what a file has ahead,
--                        Read/Copy and Read/Decrypt one round, Read/Delivered the whole call.
--   Cipher/Write.antt    cipher_write: Write/Safety and Write/Limit that it ends and its limit,
--                        Write/Append, Write/Fresh and Write/Stored what it stores, Write/Sole and
--                        Write/SoleLoop the reference counts that one writer leaves.
--   Cipher/Ioctl.antt    cipher_ioctl and cipher_free_buckets, the commands of hw3/cipher/cipher.h.
--   Cipher/Driver.antt   the devices as cipher_init_module sets them up.
--   Cipher/System.antt   the sequences of calls on a device as a step relation; System/Close the
--                        last close of a writer, System/Crash a use of freed memory,
--                        System/RoundTrip what one process writes and the next one reads,
--                        System/Reader and System/Files what a call makes of the open files,
--                        System/Stuck a file opened before the first write,
--                        System/NewKey a device that was given a new key.
--   Cipher/TestProgram.antt  hw3/cipher/test.c: TestProgram/Steps its calls, TestProgram/Reads the
--                        whole program.
--
-- The supply and demand server: one process per client, with the slots of all clients in shared
-- memory. A slot is free when its client_id is -1. The functions that change the slots run under
-- the mutex of the shared memory, and each queue of notifications under its client's mutex.
--   SupDem/Word.antt     `int` arithmetic, wrapping at 32 bits, and manhattan_distance.
--   SupDem/State.antt    the structs of the shared memory.
--   SupDem/Text.antt     the messages, as lists of bytes.
--   SupDem/Match.antt    check_for_match and what it calls: Match/Amounts the balance of the
--                        goods, Match/Settled one demand's turn, Match/Complete the whole.
--   SupDem/Queue.antt    the ring of notifications and the thread that sends them: Queue/Refine the
--                        bounded queue it implements, Queue/Drain a round of the thread.
--   SupDem/Notifier.antt the thread that sends, step by step among the other threads, with the
--                        client's mutex and the thread's cancellation: Notifier/Order what becomes
--                        of the messages, Notifier/Locked the end of a thread that waits.
--   SupDem/Slots.antt    add_new_demand, add_new_supply, add_new_watch, remove_watch,
--                        register_client, remove_client_resources, move_client;
--                        Slots/Laws counts the slots of each client, Slots/Places says where a
--                        supply goes.
--   SupDem/Watch.antt    check_for_watch_events_on_new_supply.
--   SupDem/Listing.antt  list_supplies, list_demands, my_supplies, my_demands: the texts that they
--                        write; Listing/Laws.
--   SupDem/Server.antt   the dispatch of command_thread_func on a command, its notifications put
--                        into the rings, the slots as main makes them, and what clients do as a
--                        step relation; Server/Settled and Server/Rings what holds in between,
--                        Server/Delivery what each client is sent.
--   SupDem/Scan.antt     sscanf on the formats of the program; Scan/Decimal that it reads back what
--                        `%d` prints.
--   SupDem/Parse.antt    the tests of command_thread_func on a line; Parse/RoundTrip.
--   SupDem/Session.antt  the buffer of command_thread_func and its cutting into lines:
--                        Session/Lines, Session/Progress and Session/Limits.
--   SupDem/Serve.antt    a line read, run and answered; Serve/Bytes the texts of commands,
--                        Serve/EndToEnd from the bytes of a client to the shared memory.
--   SupDem/Agent.antt    client_agent from a client's connection to its end, also where a thread
--                        cannot be started and the other is cancelled: Agent/Identities who holds
--                        which slot, Agent/Registering who is given one, Agent/HalfRun a command
--                        stopped at its answer, Agent/Leaves what is left of the client.
--   SupDem/Owners.antt   whose the slots on the map are: Owners/Matching and Owners/Commands what a
--                        command keeps, Owners/Holding and Owners/Steps what clients do,
--                        Owners/Reached the memories that they lead to, Owners/Halted a command
--                        stopped at its answer, Owners/Agents a whole run of client_agent.
--   SupDem/Tester.antt   the client program hw1/tester.c as far as it sends: send_command, the script
--                        and the interactive mode; Tester/Send one line, Tester/Script a script,
--                        Tester/EndToEnd a script and the server together.
-- In these, a list stands for each array, of whatever length, and a call of enqueue_notification
-- made while matching is recorded as a note with its client and message; the notes of a command
-- are delivered at its end. A read on a socket is the number of bytes that it gives.
--
-- Base.antt and its children hold what both share: tests on numbers, lists with machine indices,
-- copies into a buffer, integers, the exclusive or, and masks of one bit.
--
-- Undefined behaviour (a use of freed memory, a division by an empty key's length, a read before
-- the key) is a result of its own, `fault`. A key offset is the bit pattern of an `int`, and so is
-- what CIPHER_IOCQREM answers, whose sum wraps at 32 bits; reference counts are integers without a
-- bound. Loops run on fuel: cipher_read gets one round per byte asked for and per allocation made,
-- and two more; cipher_write one round per byte that it will write, and one more; the client one
-- write per byte of a command, one round per byte of a script, and one more of each; the sending
-- thread one turn per place of the ring. That they suffice is part of the results below, in which
-- running out of fuel is never allowed.
--
-- Parameters: whether each kmalloc succeeds, what the user's memory lets the kernel copy, the
-- macros of <linux/ioctl.h> that take commands apart, the kernel's find_vma and d_path, what write
-- takes of the client's bytes, when the client's flag is cleared, which of a client's threads can
-- be started and at which call a cancelled one ends, and what `%d` of sscanf stores for a number
-- beyond an `int`.
--
-- Not modelled: the registration of the character device and module unloading, which are calls of
-- the kernel; the server's sockets, its processes and what else its threads do; the options, the
-- connection and the output of hw1/tester.c; generated build files.
pub mod Base
pub mod Cipher
pub mod CheckAddr
pub mod SupDem
