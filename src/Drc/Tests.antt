-- ===== src/Drc/Tests.antt =====
-- A call of src/rpc/drc.cpp, its retransmissions and its reply.
use lightnfs.Prelude.{◌≡◌, refl, some, List, [], ◌∷◌, bytes_eq, if◌then◌else◌}
use lightnfs.Maps.{find, put}
use lightnfs.Drc.Cache.{
  Peer, peer_bytes, key_eq, CallKey, Config, cached, begin, complete, in_progress,
}
use lightnfs.Drc.Log.{Event, run, executing, entry_of, last_reply}
use lightnfs.Drc.Trace.{start, run-one_owner, begin-Told}

abbrev remove_call : CallKey
remove_call = record {
  peer_addr = peer_bytes (Peer.inet (10 ∷ 0 ∷ 0 ∷ 1 ∷ []));
  xid = 77;
  prog = 100003;
  vers = 3;
  proc = 12;
  args_hash = 5;
}

abbrev two_minutes : Config
two_minutes = record { ttl = 120000; max_memory = 67108864 }

abbrev calls : List Event
calls =
    Event.call 0 remove_call
    ∷ Event.call 10 remove_call
    ∷ Event.finish 20 0 (1 ∷ 2 ∷ [])
    ∷ Event.call 30 remove_call
    ∷ []

run-one_owner_example :
    executing (run two_minutes start calls).owners remove_call
    ≡ (if in_progress (entry_of (run two_minutes start calls).drc remove_call) then 1 else 0)
run-one_owner_example = run-one_owner two_minutes calls remove_call

begin-Told_example :
    (executing (run two_minutes start calls).owners remove_call ≡ 0)
    × (some (1 ∷ 2 ∷ []) ≡ last_reply (run two_minutes start calls).log remove_call)
unfolding begin run complete find put key_eq bytes_eq
begin-Told_example = begin-Told two_minutes calls 40 remove_call

-- The retransmission is given the reply.
retransmitted :
    (begin two_minutes 40 remove_call (run two_minutes start calls).drc).0
    ≡ cached (some (1 ∷ 2 ∷ []))
unfolding begin run complete find put key_eq bytes_eq
retransmitted = refl
