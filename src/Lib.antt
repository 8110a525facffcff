-- ===== src/Lib.antt =====
-- cs326: the programs of an operating systems course, in C.
--
-- The repository's programs are independent of each other. Those modelled are, each in a tree of modules:
--   Allocator   Project3/allocator.c, a replacement for malloc, free, calloc and realloc over mmap.
--   Scheduler   LabWork/Lab7/scheduler.c and scheduler.h, processes that take turns in quanta.
--   Inspector   Project1/inspector.c, what a proc file system says of the machine and its tasks.
--   Specs       LabWork/Lab7/file_format.c, the reading of process specifications into the scheduler's table.
--   Tokens      `next_token`, as it stands in Project4/next_token.c, with the loop of that file's main.
--               Project4/www.c, Project1/inspector.c and LabWork/Lab7/file_format.c have the same function.
--   History     Project2/history.c, the ring of the shell's last 100 commands.
--   Shell       Project2/shell.c and tokenizer.c, from a command line to its programs, with Pipeline,
--               Jobs and History.
--   Jobs        Project2/shell.c, the table of background jobs.
--   Pipeline    LabWork/Lab9/leetify.c, the programs of a pipeline and their streams.
--   Www         Project4/www.c, the web server: its answer to a request, and its processes.
--   Common      shared names, lists over native numbers, 64-bit words, `int`, decimal numbers.
--
-- Allocator. A run is a function of the memory (Allocator.Heap): the headers `struct mem_block` by address,
-- the payload bytes, `g_head` and `g_allocations`. It ends in a value, in a fault (a read of a header through
-- NULL or where none was stored, a write through NULL), or out of fuel. `getenv`, `getpagesize`, `mmap` and
-- `munmap` are the fields of `Env`. Sizes and addresses are 64-bit words, and every sum and difference on the
-- path of a request wraps around where the code's does. The functions keep their names; the loops of `reuse`
-- are first_fit, best_fit and worst_fit, the two halves of `malloc` are refill and grow, and the loops of
-- `free` are walk and find_before. Every loop over the chain takes fuel, one more than the blocks of the
-- chain, since a round goes on to the next block. Regions and Spec hold the abstract view: a list of mapped
-- regions, each a row of cells, from which all header fields are computed; Holds relates it to the memory.
-- Allocator.Print has the lines of `print_memory`, as their numbers; `write_memory` puts the same lines into a file. The
-- mutex is not modelled, since no function of the file locks it.
--
-- Scheduler. `Sched` is `g_sstate` with the main context; `num_processes` is the length of the table. The
-- eight algorithms give a `Choice`, which is then run by `context_switch`: to switch, to do nothing, to switch
-- to a variable that was never set, or to draw random numbers without end. An interrupt ends in an `Outcome`.
-- Times are counts of microseconds, read from a clock that is a parameter, and the random numbers of
-- `insanity` are a list. An execution context is kept as what it can be resumed to. Scheduler.Machine
-- has the steps of `process` between interrupts, Scheduler.Summary the end of `main`. The signal and its flag, the
-- progress bar, the averages and the calibration (workload.c) are not modelled.
--
-- Tokens. A buffer is a list of bytes, a pointer into it an offset, and a call writes a zero behind the token.
-- The loop takes fuel, more than the string is long. Tokens.Split says what the tokens of a string are.
--
-- Specs. `read_spec` takes what `fopen` gives, `none` for a null pointer, and the table so far. It ends in a `Result`:
-- the table, or the fault that the code runs into; its loop takes one more than the bytes of the file as fuel,
-- since a line that is read is not empty. `atoi` is read as exact, and the conversion to `unsigned int` takes the
-- number modulo 2^32.
--
-- Inspector. A section is a command on a `State`: the buffer, the number of calls of `open` so far, and the output. It
-- ends with a value, in a return from `main` with a status, or in a fault: a null pointer that is read, or an array
-- that is written behind its end. What the system gives is a `World`, with a file for each call of `open`, since
-- the kernel computes the files anew; a `read` gets as much as it asks for. The bytes that an earlier file left in the buffer stay
-- there, as in the code. The two percentages are floating point: their texts, and the lengths of their bars, are fields
-- of the `World`. An `int` has no bound, but in the sum of the CPU times, where an overflow, which C leaves
-- undefined, is a fault. The two loops over the tokens of a file take at most as many rounds as the code allows, and
-- those over the lines of stat two more than the buffer has bytes.
--
-- History. The slots are strings, the counts numbers below 2^31. Represents relates the ring to the list of all
-- commands. A copy past the end of a slot, or of the buffer in `find_cmd`, is a result of its own.
--
-- Www. The bytes that `read` gives are a list with an end; the file system and the timestamp are the fields of
-- `Server`. `handle_request` ends in a `Reply`. The loop takes as fuel one more than the bytes of the stream. A
-- header line as long as the buffer, which has no zero behind it, is read as if it had one. `main` is the run of
-- a process and of its children, on what each `accept` and `fork` gives; the streams of a connection are given for
-- each call of `handle_request`, and any fuel above 0 serves for the loop of the child, which has one round.
--
-- Shell. `exec` takes the tokens as a list, whose end is the NULL of the array; what stood in the array behind the NULL is
-- taken to be NULL as well, and an array that loses its NULL is a result of its own. The copies of `exec` have room for
-- 625 pointers, the bytes of a background command are bounded by its slot. `tokenizer` takes as fuel more than the
-- tokens of the line. A round of
-- the loop of `main` ends with an `Effect` or a fault; what fresh memory holds is a parameter. The loop itself with
-- `getline`, and the messages, are not modelled.
--
-- Pipeline. The result of each system call is a field of `Os`, by the command that it is made for; `dup2` is
-- tested only where the code tests it. A program stands for a process that reaches `execvp`. File descriptors
-- that are left open, and `main` with its fork and its wait, are not modelled.
--
-- Jobs. The table is two lists of ten slots, and the count an `int` of its own. A read or a write outside of the
-- table is `none`. The result of `waitpid` is a parameter.
--
-- The other programs of the repository, the other labs among them, are not modelled.
pub mod Allocator
pub mod Common
pub mod History
pub mod Inspector
pub mod Jobs
pub mod Pipeline
pub mod Scheduler
pub mod Shell
pub mod Specs
pub mod Tokens
pub mod Www
