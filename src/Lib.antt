-- ===== src/Lib.antt =====
-- A verification library for lightnfs, a userspace NFS server in C++20 that answers NFSv3, MOUNT
-- and NFSv4.1/4.2 over ONC RPC and serves several storage backends.
--
-- The program, from the wire inwards. transport/record_stream cuts a TCP stream into records;
-- rpc/rpc_msg reads the call header of a record with the decoder of xdr/xdr.hpp; rpc/dispatch
-- checks the version, the TLS policy, the registered programs and the credential, and hands the
-- call to an engine: nfsv3/engine, mountd/mount3 or nfsv4/engine. An engine works on a backend
-- (backend/) and turns its errors into wire statuses by core/errmap. The NFSv4 engine keeps its
-- sessions, opens and locks in state/state_mgr, which keeps the byte-range locks of all files in
-- state/lock_mgr.
--
-- Paths in this library are from the repository's root, so src/state/lock_mgr.cpp is the lock
-- table. A number of w bits is a native natural number, and where the code wraps the remainder
-- by 2^w is written out. A byte is a number, a string of bytes a list. A coroutine that holds
-- one mutex for its whole body is one step.
--
-- Prelude: the names that the other modules share, Boolean tests on numbers and bytes, lists
-- measured by native numbers, slices of lists.
-- Maps: association lists for the hash maps of the code, with the laws of find, put and erase.
-- Nfs3, Nfs4: the status codes and the procedures of src/nfsv3/nfs3_types.hpp and the status
-- codes and operations of src/nfsv4/nfs4_types.hpp, with their numbers.
-- Errmap: src/core/errmap.cpp and the error numbers of src/util/errno.hpp. V3 and V4 hold the
-- two tables, to_v3 and to_v4; ByError3 and ByError4 describe the answers the other way round,
-- error by error with the procedures or operations that may have its status; Legal holds what
-- follows for a client.
-- Xdr: src/xdr/xdr.hpp. Decode is the decoder XdrDec over a chain of segments or over flat
-- memory; Flat sets the same reading of plain bytes, as RFC 4506 has it, beside the decoder;
-- Chain and Suffix hold the lemmas; Written is what the encoder appends for a number and for an
-- opaque.
-- Stream: src/transport/record_stream.cpp. Read is read_record without TLS, over the list of
-- what recv gives; Flat is the same loop over plain bytes, Framing describes a record by its
-- fragments without the loop, Found and Records join them, and Bounds is about the record cap.
-- The fragments are counted down from the 1024 that the code allows.
-- Rpc: src/rpc. Call is parse_call with the hash of the arguments; Parse sets the reading of
-- plain bytes, as RFC 5531 has it, beside it; Auth is auth.cpp; Dispatch is handle_request up to
-- the handler; Accepts describes the credentials that are accepted and the program that serves a
-- version without that code; Answers and Mismatch are about the records that a handler gets and
-- the answer PROG_MISMATCH. The handler itself, and whether it throws, is a parameter.
-- Drc: src/rpc/drc.cpp. Cache holds the keys, begin, complete, abort, flush and purge; Purge
-- what a purge may take out; Log the calls beside the log of their replies; Entries, Once and
-- Steps the lemmas; Trace the results.
-- Locks: src/state/lock_mgr.cpp. Types and Segs hold the segments and carve and coalesce, Table
-- the operations of GatewayLockMgr; Coverage, Proper, Canonical, Files, Account, Grant, Steps
-- and Drops hold the lemmas; Safety, Answers and Unlock the results. The specification is the
-- map from an owner and a byte to the lock it holds there.
-- Sessions: SEQUENCE in src/state/state_mgr.cpp. Sequence holds sequence_begin,
-- sequence_complete and sequence_abort, Bind bind_conn and destroy_session; Log the events and
-- the log of what was executed; Slots, Sized, Steps, Fixed, Begin and Ends the lemmas; Trace,
-- Replay, Admits and Steps the results. A request that waits on its slot runs its round again,
-- so each round is one step.
-- Config: StateMgr::Config of src/state/state_mgr.hpp.
-- Grace: the grace windows of src/state/state_mgr.cpp. Windows holds arm_grace, end_grace,
-- window_live, in_grace, grace_remaining_seconds, in_stable_list and note_reclaimed; Periods
-- what they promise, without the flags that the code clears lazily; Same and Calls hold the
-- lemmas; Refines and Ends the results.
-- Opens: the opens of src/state/state_mgr.cpp. Types are the state records and the tables that
-- hold them; Unlink is unlink_state, which CLOSE and the end of a client need; Open is open,
-- with the eight rounds in which a client in courtesy gives way, and its child Shares holds its
-- gates and the arbitration of share reservations; Stateids holds the operations that take a
-- stateid, its child Check check_io and lookup_stateid, itself close_state, open_downgrade,
-- free_stateid, delegreturn, check_deleg_claim, and deleg_conflict. Exclusive, Created, Recalled
-- and Filed hold the lemmas, Rounds, Io, Closed and Narrowed the results.
-- Clients: the registration of clients in src/state/state_mgr.cpp. Types holds the tables of
-- clients, which the code keeps by client id, by owner and, once more, in an index; Exchange is
-- exchange_id, Session create_session and confirm_create_session, Leave destroy_clientid,
-- reclaim_complete and expire_client_impl, Scan scan_leases. Each takes the addresses of the
-- records that the tables hold, so a record that two tables hold is one record. View is what the
-- tables answer, and the steps by which that changes; Kept, Kills, Unlinked, Tables, Moves,
-- Registers, Confirms with its child Buried, Leaves, Requests and Granted hold the lemmas; Run,
-- Created, Reboot and First the results. A StateMgr is one record (Sessions.Types), on which
-- Sessions, Opens, Clients and Grace work.
--
-- No definition here runs on fuel: every loop is recursion on a list, or on a count that the
-- code keeps. unlink_state calls itself for the locks of an open; a lock has none, so two levels
-- are enough.
--
-- Not modelled: in state/state_mgr.cpp the lock states and the grant of delegations, the
-- backchannel, the sweep of recalled delegations, native locks, and the files of the stable
-- store, of which the calls are kept; a coroutine there that takes several mutexes one after
-- another is one step, so its interleavings with others are not covered; the hash functions that
-- spread the lock and session tables over shards (each operation touches one shard under its
-- mutex, so the shards are one table here; the duplicate request cache has its 16 shards); the
-- coroutine runtime, io_uring, epoll and TLS, which are I/O; the backends, the engines'
-- operations, the cluster controller, the configuration and the metrics. In the decoder,
-- opaque_spans is left out, and reading past the last segment reads nothing. Of the RPC replies
-- only the words of the header are modelled.
pub mod Prelude
pub mod Maps
pub mod Nfs3
pub mod Nfs4
pub mod Errmap
pub mod Xdr
pub mod Stream
pub mod Rpc
pub mod Drc
pub mod Locks
pub mod Config
pub mod Grace
pub mod Sessions
pub mod Opens
pub mod Clients
