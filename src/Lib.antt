-- ===== src/Lib.antt =====
-- CyberCore: the governed core of the infrastructure platform. Its parts decide whether an effect
-- may happen, and keep the record that shows what happened.
--
-- Failover (Failover.antt and its children) is src/cybercore/failover_sim.py. Types has its records
-- and the states of an operation. Journal is the class Journal: the tables of operations and of
-- leases as association lists by their primary keys, the log of events as a list with its counter.
-- Provider is FakeProvider, Simulator is the class Simulator with grant, lease, decide (`allow`),
-- and in Checks and Transition its gates and its transition (`_transition`), and Methods its run,
-- reconcile and compensate, which are composed of one function for each stage up to the next raise
-- or return. A crash that the caller injects is an error, and what was written before it stays.
-- History has the sequences of calls, with the clock, the grants and the injected faults between
-- them.
--
-- Kernel (Kernel.antt) is src/cybercore/action_kernel.py. Kernel has the class ActionKernel with
-- its clock (a sequence of readings), its evidence sink (which accepts or raises, on what it has
-- accepted before) and its private methods, and Create its constructor; Policy is
-- `_evaluate_policy`, Execute is `execute`.
--
-- Audit (Audit.antt) is the log that the kernel's evidence is sent to. Document and Sink are
-- src/cybercore/action_kernel_sqlite_audit.py: the document of an event as canonical JSON, and the
-- table of rows that are chained by their hashes. Checkpoint is action_kernel_audit_checkpoint.py
-- and Anchor action_kernel_anchor_authority.py, beside it. Recorded puts the sink into the kernel:
-- the file is a function of the events that the kernel's sink has accepted.
--
-- Bridge (Bridge.antt) is the way from the kernel's tasks to a CyberHIVE node: Guards are the
-- replay guards of action_kernel_hive_bridge.py and action_kernel_sqlite_replay.py, Interop is
-- action_kernel_interop.py, Process and DryRun are the bridge itself, one function for each stage,
-- and Broker is action_kernel_trusted_broker.py, which runs the kernel and then the bridge. The
-- bridge takes a durable guard by its operation alone; the record IsDurable is the contract that it
-- relies on, and both guards of the source fulfil it. The registry of the nodes, the import of it
-- and the printing of a time are parameters.
--
-- Execution (Execution.antt) is src/cybercore/execution, on both sides of an SSH connection.
-- Protocol, Authorization, Policy, Response and Client are the client; Server, Dispatcher,
-- Inventory, Docker and Report are its server directory. A message is the JSON value that it
-- encodes, and a program that is run is its outcome. What the server prints is what the client
-- reads in Agreement and Transfer.
--
-- LongRun (LongRun.antt) is src/cybercore/longrun: Store is state.py, Governor is governor.py and
-- watchdog.py, Evaluation and Manifest are the validations of evaluation.py and manifest.py, and
-- Engine is engine.py, in Results from the executor's answer on and in Steps before and around it.
-- The callbacks of the application take the world outside to the next, and may do anything to it.
--
-- Rooms (Rooms.antt) is src/cybercore/communication: Registry is contracts.py and
-- agent_registry.py, Coordinator is room_coordinator.py. The gateway and the agents are parameters
-- that may raise.
--
-- Base has what they share: Exec is a method that changes an object and may raise, where what was
-- written before a raise stays written; Preserves and Returns are the rules for what every method
-- keeps and returns; Maps, Lists, Tests, Text, Int, Float and Time are the values of Python.
--
-- Bounds: the loop of run_until_terminal is by a number of steps, as `max_steps` bounds it; nothing
-- else runs on fuel. Instants are whole numbers of a unit. Floats are exact multiples of 2^-1074
-- with the infinities and NaN; their rounding and overflow are left out, and so is the refusal of a
-- clock's or a score's NaN by a NOT NULL column of the long-run store. A dictionary of evidence
-- is its digest (or the exception of computing it), its emptiness and the exception of encoding it,
-- and a mapping of arguments is the size of its encoding, or which exception there is of encoding
-- it. SHA-256, and the canonical JSON of evidence and arguments, are parameters.
--
-- Not modelled: threads (the calls of an object happen one after the other; a sink does not call
-- the kernel that calls it), the SQLite connections and files, command lines, network clients and
-- servers, subprocesses, audio, the text of the JSON messages between client and server, the
-- commands by which the server collects an inventory, and the other packages under src/cybercore.
pub mod Base
pub mod Failover
pub mod Kernel
pub mod Audit
pub mod Bridge
pub mod Execution
pub mod LongRun
pub mod Rooms
