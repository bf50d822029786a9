-- ===== src/Lib.antt =====
-- errmark runs a program under ptrace(2), and brackets what the program writes to its standard
-- output and to its standard error with marks, so that the two can be told apart.
--
-- The parts and their files, with paths from the root of the repository:
--   * src/liberrmark/mark-write.c, the marks: Marks (the writes that switch between two
--     descriptors), Marks/Specs, Marks/Parsing and Marks/Parsed (the argument of --mark),
--     Marks/Transcript (what a sequence of writes is to look like on a terminal, with no state),
--     Marks/Reader, Marks/Skips, Marks/Apart and Marks/Both (readers of it).
--   * src/liberrmark/pmem-copy.c and pmem-fwrite.c, reads of the memory of the traced child: Pmem,
--     with the memory and the theorems in Pmem/Memory, Pmem/Exact, Pmem/Sound, Pmem/Agree,
--     Pmem/Bounds and Pmem/Enough.
--   * src/liberrmark/guard-ptrace.c: Guard, with its ways to end in Guard/Ending and Guard/Chunks.
--   * src/liberrmark/run-program.c: Writes (what is done at a stop of the child at a write) and
--     Run (the other stops, the loop over them, and the fork). The proofs stand below it:
--     Run/Shows has the relation between the state and what a terminal shows, Run/Switch,
--     Run/Steps and Run/PassOn keep it through the parts of a stop, Run/Script says what a traced
--     program does, Run/Weave, Run/Rounds and Run/Closing follow it through the loop, and
--     Run/Viewed, Run/Leaves, Run/Terminal and Run/Apart draw the conclusions for a whole run.
--     Run/Asked, Run/Requests, Run/Events, Run/Flagged and Run/Tracee do the same for the requests
--     that the tracee is sent, and Run/Lost has the run without a tracee. Run/Program has a
--     program as a machine that makes system calls, on its own and under these requests,
--     Run/Launch has the run from the stop of execve(2) on, and Run/Untraced compares the two.
--     Run/Sound, Run/Sound/Stops and Run/Sound/Reach have what holds at each round, and Run/Total
--     how a run ends, whatever the kernel answers, Run/Ends the statuses that end the loop, and
--     Run/Child the child of the fork; Run/Fails has the run in which a request fails, Run/Unread
--     the write that cannot be read, and Run/Partial a run of such writes. World/Returns and
--     World/Keeps have the rules for actions that return, and for those that may end in other ways
--     too; World/OnlyIo and Run/Streams what changes the streams only.
--   * src/libcscript: Cscript/Esym (decode-esym.c), Cscript/Errors (decode-emsg.c, fshow-errno.c,
--     explain-err.c, guard-malloc.c), Cscript/WaitStatus (decode-signal.c, fshow-wait-status.c),
--     Cscript/Show (show-char.c, fshow-str.c, fshow-str-array.c), Cscript/Sname and Cscript/Named
--     (sname.c), Cscript/Color (lookup-color-name.c), Cscript/PrintFh and Cscript/DebugFh
--     (set-print-fh.c); Cscript/Ended has the ways in which a child may end, and what is said of
--     each (of any other status in Cscript/Reported), and Cscript/Ascii and Cscript/Listing what
--     is printed of strings, and Cscript/Symbols the buffers for the symbols of errno values, and
--     a reader of them.
--   * src/cmd/errmark.c: Options (the actions of the options) and Main (the loop over the options,
--     and `main`), with the theorems on a whole run of errmark in Main/Exit, Main/Chosen,
--     Main/Ended, Main/Gone, Main/Rejects, Main/Final, Main/Debug, Main/Read, Main/Apart,
--     Main/Colored, Main/Both, Main/Launched and Main/Total; Main/Choices says what the options
--     ask for, and Main/Done and Main/Settings have the proofs that the loop does it.
--   * src/inc/errmark.h and src/inc/cscript.h: World has `cmd_t`, the global variables and the
--     printing macros (those that no code uses in World/DebugPrint); Stdio has the streams and
--     write(2).
-- Prelude passes on the names of the library and declares tests, lists, integers and bytes.
--
-- The state of the program is the record `World`; an operation is a function from a `World` to an
-- `Outcome`, which is a result, exit(), abort(), undefined behaviour of C (a NULL stream is
-- printed to, or a buffer overruns), or a wait(2) that does not return. The kernel's part is data:
-- a round of the loop of `ptrace_cmd` gets a `Stop`, which has the wait status, the registers, the
-- errno of each request and the answers to PTRACE_PEEKDATA. A run is a list of stops. The C
-- library's choices (malloc, strerror_r, _sys_siglist, and how much of its buffer stdio sends at a
-- write) are functions in the records `Libc` and `Io`. What a terminal shows of both streams is
-- `shown`: all chunks sent by write(2) in order, and then what is still in stdout's buffer. What
-- strndup(NULL, 0) gives, which C leaves undefined, is the field `dup_null`; `%s` of NULL prints
-- (null), as with glibc; and what the variables without an initial value hold is an argument. The
-- machine is x86_64: words of 8 bytes, addresses modulo 2 ^ 64, `int` of 32 bits, a signed `char`.
--
-- The loop of `pmem_copy` over whole words takes fuel, and gets the length of the region: each
-- round takes 8 bytes off it. All other loops are by recursion on a list.
--
-- The results of getopt_long(3), and what fstat(2), fopen(3) and fork(2) give, are arguments of
-- `main_program`, in the record `Env`; the loop over the options is a recursion on their list.
--
-- `set_debug_fh` gives the stream as a result of its own, with fopen(3) and getenv(3) as
-- arguments; of the table for getopt_long(3), the model has the names and values.
--
-- Not modelled: getopt_long(3) itself; the effect of fopen(3) on the file system; the functions
-- and the `struct fvh` that src/inc/cscript.h declares and that no file of the repository defines
-- or uses; and sleep(1), which changes no state.
mod Prelude
pub mod Stdio
pub mod World
pub mod Marks
pub mod Pmem
pub mod Cscript
pub mod Guard
pub mod Writes
pub mod Run
pub mod Options
pub mod Main
pub mod Tests
