-- ===== src/Lib.antt =====
-- The cluster of this repository: a master passes programs that an interface uploads to workers, and
-- the output of each program back to the interface. This library models the parts that decide how
-- bytes, tasks and threads move, and proves what they promise.
--
-- Parts, and the file that models each:
-- - Vector (vector.h, vector.c): the growable array. `Vector.erase` is vector_erase, `Vector.set_at`
--   is vector_set, and so on. An operation returns the new vector and what the destructor is given;
--   an access outside the block is `fault`; `size_t` wraps at 2 ^ 64. Its specification is
--   `Vector.Valid`: the list of the slots in use.
-- - Queue (queue.h, queue.c): the linked queue, on a heap of nodes. `Queue.enqueue` and
--   `Queue.dequeue` are queue_push and queue_pull after their wait; `Queue.Monitor` adds the lock, the
--   condition variable and any number of threads. Its specification is a bounded buffer, first in
--   first out.
-- - Kernel: read(2) and write(2) as lists of events that the environment chooses; `Kernel.Delivery`
--   says when a run of bytes arrives whole; `Kernel.Accepting` when every write gets through.
-- - Text: C strings and the words of the protocol.
-- - Worker (worker.h, worker.c): the socket loops, the header, and one round of the loop of
--   worker_main (`Worker.next_request`). `Worker.Sending` is write_file_to_socket and a round of the
--   thread sending; `Worker.Pool` is the threads tasking and sending as turns on their two queues, and
--   what worker_main does at its end: it closes the socket and pushes the end tasks.
-- - Master (master.h, master.c): the structs and the list of workers. `Master.Scheduler` is schedule
--   and scheduler_remove_task; `Master.Output` is write_all_to_socket and do_put; `Master.Parser` is
--   get_command, whose place in a header stays in the worker's struct when the socket would block;
--   `Master.Payload` is get_size and the loop of get_binary_data; `Master.System` is the static
--   variables of master.c, the files on its disk and what it has sent; `Master.Events` is handle_data,
--   one block for each test of `status`; `Master.Loop` is accept_connections and the event loop of
--   master_main; `Master.Recovery` is reschedule, detect_heart_failure, handleOrphans and checkOnNodes;
--   `Master.Heartbeat` is report_heartbeat and the erasing loop of reschedule on a vector;
--   `Master.Threads` is listen_to_heartbeat, detect_heart_failure and the event loop side by side;
--   `Master.Events.Resuming` and `Master.System.Growing` are about requests that come over several
--   calls of handle_data and of get_binary_data;
--   `Master.Descriptors` says which descriptors a list of workers has. C's `double` is a
--   parameter, `Master.Floats`: its `<` is irreflexive and transitive, and nothing is assumed of its
--   arithmetic.
-- - Interface (interface.c): `Interface.upload` is what interface_main sends for a name; `my_write`,
--   `my_read`, `send_request` and `write_binary_data` are the functions of those names; `read_name` is
--   the loop that reads a name, `print_output` a round of output_reciever and `copy_loop`
--   write_all_from_socket_to_fd. `Interface.Replies` is check_ok and print_binary_data, which nothing
--   calls.
-- - Cluster: one job through the programs above, from the file that the user gives to the output that
--   is printed. `Cluster.job` composes their functions; a `Journey` is what the environment does.
-- - Deprecated (deprecated/): an earlier version of the cluster. `Deprecated.Nodes` is node.c,
--   `Deprecated.TaskQueue` queue.c, `Deprecated.Assigning` scheduler.c without its socket loops, and
--   `Deprecated.Messages` getMessageType of taskManager.c.
-- - Prelude: names and lemmas that the parts share.
--
-- How they interact: the interface sends the requests that `Master.Events` takes in
-- (`Interface.Request`), and so does the thread sending of a worker (`Worker.Sending.Request`);
-- do_put writes the messages that `Worker.next_request` reads (`Master.Output.Agreement`);
-- worker_main hands what it has read to its threads through a `Queue`; the master keeps its workers
-- and their tasks in vectors, which `Master` takes as the lists that `Vector` shows them to stand
-- for.
--
-- Bounds and fuel: a loop that waits for events has one round for each event that is still to come
-- and one more, since every round takes an event. `Vector.get_new_capacity` has 65 rounds: 64
-- doublings reach every target for which the loop of the source ends. `Worker.file_loop` has a
-- round for each byte and one more, since a round that stores nothing is followed by the same round
-- for ever; the theorem that it does not end holds for any fuel. `Queue.destroy_loop` has a round
-- for each node and one more, `Worker.Sending.send_loop` one for each byte and each answer and one
-- more. `Interface.skip_header` has a round for each byte of its buffer and two more: a round that
-- does not end the loop stores a byte. The event loop of the master runs over the list of the
-- events that epoll reports, and a sweep of detect_heart_failure over the workers that it has
-- counted. The loops of `Deprecated` over a list of nodes are given their number of rounds, and a
-- theorem about their result asks for one more than there are nodes; the theorems that a call never
-- returns hold for any number. A loop that uses up its fuel, and a wait on which nothing arrives, is `hang`.
--
-- Not modelled: the set-up of the interface, the programs that the worker runs, the sending of
-- heartbeats, the set-up of sockets, epoll and signals, and of deprecated/ what is not named above:
-- its master, worker and interface, which the programs at the root replace. In `Master.Threads` a turn
-- of a thread runs from its start to its end, so a heartbeat or a sweep falls between two events of the
-- master, never inside one. In `Worker.Pool` the end tasks are pushed in one step, so it leaves out that
-- a push waits while the queue of tasks is full; whether the writes of an output get through is a choice
-- of the environment while the socket is open. Allocation succeeds. Printed messages are left
-- out.
pub mod Prelude
pub mod Vector
pub mod Queue
pub mod Cluster
pub mod Deprecated
pub mod Interface
pub mod Kernel
pub mod Text
pub mod Worker
pub mod Master
