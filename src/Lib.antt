-- ===== src/Lib.antt =====
-- A verification library for the home works on system programming.
--
-- hw1 sorts files with coroutines and merges them, hw1/solution.c.
--   * Sorting: the storage of paths, `partition` and `quicksort` over an array that is a list, and
--     an access outside of it is `crash`. The index behind the last one stands for `high`, so that
--     it is never negative. The fuel of `quicksort` is one unit more than the part is long, since
--     each call of itself has a shorter part.
--   * Sorting.Merge: `merge_sorted_files`, with a file and its index as a cursor. Each round writes
--     a value, so that the number of values and one more is the fuel. A count at index -1 is a
--     result of its own.
--   * Sorting.Run: `coroutine_func_f` and the end of `main`, as a relation of steps of any number of
--     coroutines. What a file holds is a parameter. A coroutine that gives way in the middle of a
--     sort goes on with its own array, so that a sort is one step.
--   The clock, the time quantum and the printed times are not modelled.
-- hw1/libcoro.c is the library of coroutines.
--   * Coroutine: a coroutine is its address, and a field of `struct coro` a map from addresses. A
--     jump to a context sets who runs; the signals and stacks behind it are not modelled. The search
--     for a finished coroutine takes one unit of fuel for each one of the list.
--   * Coroutine.System: the program that waits, and the coroutines, as a relation of steps.
--
-- hw2 is a shell. hw2/parser.c is an incremental parser: `parser_feed` appends bytes to a buffer,
-- and `parser_pop_next` takes the next complete command line from it, or reports an error.
-- hw2/solution.c reads its input in pieces, feeds them and executes each line.
--   * Parser.Token: `struct token`, `token_append`, `token_strdup`, and the growth of arrays, which
--     `command_append_arg` shares. A failed `assert` is the value `crash`.
--   * Parser.Lexer: `parse_token`. `act` is the body of its switch; `lead`, `lex` and
--     `skip_comment` are its three loops, by recursion on the bytes that are left.
--   * Parser.Line: `struct command_line` and its parts. A linked list is a list in its order.
--   * Parser.Buffer: `struct parser`, `parser_feed`, `parser_consume`, in 32-bit arithmetic.
--   * Parser.Pop: `parser_pop_next`. A position is an offset into the buffer. `scan` is the main
--     loop, `close_line` the part from `close_and_return` on, `skip_line` the part from
--     `return_error` on. The loops take fuel, one unit for each token; every token uses a byte, so
--     one unit more than there are bytes is enough.
--   * Shell: the loop of `main` that takes what the parser has. What it does with an error or a
--     line is an event; an error is the last one, since `main` deletes the null line behind it. One
--     round for each byte and one more is enough fuel.
--   * Shell.Exec: `my_execute_command_line` in the shell itself. The kernel is a record of functions
--     from the calls made so far, newest first, to its answers; the model keeps this log. A pair of
--     descriptors is `none` for -1. Shell.Exec.Child is the part that a forked child
--     runs, with a table of its descriptors; it ends in another program, in a return into the loop of
--     `main`, or in a fault.
--   * Shell.Main: `main` with the execution of lines, from the pieces that `read` returns to the
--     exit code. The fuel of the inner loop is the same as in Shell.
--
-- hw3 is a file system in memory, hw3/userfs.c. Files are chains of blocks; a table of descriptors
-- points to them.
--   * UserFs.State: the globals as one record, and the walks over the list of files. A pointer to a
--     file is the number its allocation was given. A call returns `none` for -1, or a value; `crash`
--     is a null pointer that is followed, or a failed `assert`.
--   * UserFs.Block: `struct block`, and the loops of `ufs_write` and `ufs_read`. A chain is a list,
--     a pointer into it an index. Each round of a write uses up a byte, so that one unit of fuel for
--     each byte is enough. A byte that was never written since `malloc` is `none`.
--   * UserFs.Open, UserFs.Transfer, UserFs.Close, UserFs.Resize: the operations, one function each.
--     `read_file`, `write_file` and so on are their parts behind the checks of the descriptor.
-- Offsets stay below `MAX_FILE_SIZE`, so that no integer type of this file overflows but the size of
-- a read, which is converted to a signed type.
--
-- hw4 is a thread pool, hw4/thread_pool.c.
--   * ThreadPool: `struct thread_pool`, and what its functions and its workers do between two points
--     where its mutex is free, one function each.
--   * ThreadPool.System: a pool, its workers and one client as a relation of steps. A wait is a step
--     that is taken when its test holds, so that every wake-up, with a signal or without, is a step.
--   * ThreadPool.Signals: the same with the condition variables: who sleeps, and what wakes them up.
--   * ThreadPool.Task: `struct thread_task`, and the functions of a task.
--   * ThreadPool.Clients: the same with any number of clients.
--   The clock of the timed join and the freeing of memory are not modelled.
--
-- hw5 is a chat, hw5/chat_server.c and hw5/chat_client.c. The answers of the kernel to the calls of
-- one operation are its arguments.
--   * Chat.Framing: how `chat_server_update` takes messages out of the bytes of a client, a length of
--     four bytes before each. Every round uses up four bytes, so that one unit of fuel more than
--     there are bytes is enough.
--   * Chat.Server: the other operations. Chat.Server.Update: `chat_server_update`; an access outside
--     of an array is noted, and a write through a null pointer ends the call. All messages of an
--     input are taken out before the first one is stored.
--   * Chat.Client: the operations of the client; Chat.Client.Lines: `_process_buffer` and
--     `chat_client_update`; Chat.Client.Address: `_split_addr_port`.
--   The trimming of a line, whose result nothing uses, the programs around the chat and the deletion
--   of a server or a client are not modelled.
--
-- Bytes are numbers; `isspace` is that of the C locale. Freeing memory is not modelled, and
-- allocation never fails.
mod Base
pub mod Parser
pub mod Shell
pub mod Sorting
pub mod ThreadPool
pub mod Chat
pub mod Coroutine
pub mod UserFs
