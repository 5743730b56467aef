-- ===== src/Lib.antt =====
-- A verification library for the core of cshell, a POSIX shell in C.
--
-- The parts. A shell has one state (src/state.c): variables with attributes, positional
-- parameters, functions, hashed paths, options and statuses, and a table of aliases
-- (src/alias.c) that the builtins alias and unalias read and change. Arithmetic expansion
-- (src/arithmetic.c) reads and assigns variables of the state, and takes a checkpoint of it
-- first so that an expression that fails changes nothing. The decoder of dollar-single-quotes
-- (src/quote.c) works on bytes and the character lengths of src/character.c. The command line
-- (src/invocation.c) chooses the options and positional parameters that a state begins with. The
-- job list (src/jobs.c) holds the pipelines that the executor starts, which it polls, reports
-- and waits for; the trap table (src/traps.c) holds the actions of signals, which the shell
-- takes one after another, and the handlers that it sets for them. A trap names a signal by the
-- table of src/jobs.c. The spans of an expanded word become fields in src/fields.c, which splits
-- them at IFS and encodes what was quoted for the pattern matcher. Commands come line by line
-- from src/input.c.
--
-- The files. Prelude and its children are shared: byte strings, association lists with their
-- laws, lists and integers over the native numbers, memory and output streams. Alias models the
-- table of src/alias.c (set_alias, csh_aliases_get, csh_aliases_unset, csh_aliases_clone),
-- Alias/Builtin csh_builtin_alias and csh_builtin_unalias; Alias/Order, Alias/Clone,
-- Alias/Builtin/Quote and Alias/Builtin/Laws hold their proofs. State models the structs of
-- src/state.c and include/cshell/state.h; its children model the operations: Locale
-- (csh_state_refresh_locale), Variables (get, set, unset, update_attributes), Saves
-- (csh_state_save_variables, csh_state_restore_variables), Parameters (positional parameters,
-- statuses, options), Environment (csh_state_create, csh_state_environment), Functions
-- (reference counts), Hashes, Snapshot (csh_state_clone, csh_state_save, csh_state_restore),
-- Mutations (sequences of them) and Session (mutations with pushes, saves and checkpoints);
-- Snapshot/Identity and Snapshot/Scarce hold the proofs on checkpoints with memory and without.
-- Arith models src/arithmetic.c: Literal, Lexer (next_token), Operation, Values (read_value,
-- assign), Expression (primary, expression) and Eval (run and the interface). Character and
-- Quote model src/character.c and src/quote.c, and Invocation the options and operands of
-- csh_invocation_parse (src/invocation.c) with the option table of include/cshell/options.h.
-- Jobs models the list of src/jobs.c (complete, stopped, job_status, csh_jobs_add,
-- csh_jobs_remove); its children are Poll (csh_jobs_poll), Current (promote_job, current_job,
-- find_job), Signals (the signal names), Report (print_job, csh_jobs_announce, csh_jobs_notify
-- and the builtin jobs), Wait (wait_job, the end of csh_jobs_foreground and the builtin wait)
-- and Steps (runs of the list); Retention, Adding, Status, Current/Ranked and Steps with its
-- children hold the proofs. Traps models the table of src/traps.c with csh_traps_create,
-- csh_traps_destroy and csh_traps_take, Traps/Process csh_traps_after_fork and
-- csh_traps_exec_signals, Traps/Builtin csh_traps_builtin, and Traps/Steps the runs of a table;
-- Drain, Coherent, Exec, Ignored, Builtin/Keeps and Steps with its children hold the proofs.
-- Fields models the types of src/fields.c and csh_fields_append, Fields/Pattern
-- bracket_subexpression and make_pattern, and Fields/Split current, delimiter, emit,
-- finish_field and csh_expand_fields; their children hold the proofs. Input models the reader of
-- src/input.c (reserve, next_byte, read_failure, csh_input_read_line), and Input/Lines and
-- Input/Loop hold its proofs. Tests and its children hold runs and the theorems at concrete
-- inputs.
--
-- How the state is modelled. A string is its list of bytes, a linked list of named entries an
-- association list in the order of the links, a NULL result none. Operations take the state and
-- hand back a result code with the new state. Allocation is an argument: a memory is a list of
-- answers, false where malloc fails, and true when the list is used up, so every pattern of
-- failures is covered. A function is the number of its payload, and the counts are a function of
-- that number. A job is known by its id, which stands for the pointer to it; a pid that is 0
-- stands for a process that was not started. The entries of the trap table, the pending signals
-- and the handlers that sigaction tells are functions of the signal's number. The locale of the
-- C library is a field that only csh_state_refresh_locale sets.
--
-- Bounds and fuel. A long has 64 bits; numbers are integers and each operation has the tests of
-- the source. Loops over lists are structural. expression and its loop run on fuel: the length
-- of the text and 3 more, which exceeds the bytes and the token left, and each nested call or
-- round has fewer left. The decoder runs on one more than the length of its region, and the loop
-- over option words on one more than their number. The eviction of csh_jobs_add runs on one more
-- than the number of jobs, since each round removes one. make_pattern and finish_field run on
-- one more than the bytes, or the bytes and spans, that are left. The capacity of an input line
-- doubles at most 64 times, and csh_input_read_line on a string runs on more than its bytes. A
-- wait goes on as long as its list of rounds: when that is used up the shell still sleeps. The
-- theorems on answers say that no call runs out.
--
-- What is a parameter: whether setlocale takes a name, mbrlen and btowc, whether the stack has
-- room at a depth of nesting (csh_stack_check), the numbers of signals and what sigaction,
-- sigaddset and strtol take, what waitpid and read report, what the interruption callback
-- answers, and csh_pathname_expand, which src/fields.c calls.
--
-- What is not modelled: tests for NULL arguments, and texts near SIZE_MAX bytes; the terminal,
-- process groups and signal handlers of the job manager, and the builtins fg, bg and kill; the
-- masks and flags of signal handlers; pathname expansion, redirections, the opening of the
-- sources of input and the descriptors kept for them, the shell's lexer and parser, expansion
-- and execution; main and the utilities, which are mostly system calls.
pub mod Prelude
pub mod Alias
pub mod Character
pub mod Quote
pub mod State
pub mod Arith
pub mod Invocation
pub mod Jobs
pub mod Traps
pub mod Fields
pub mod Input
pub mod Tests
