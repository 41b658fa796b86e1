-- ===== src/Rpc/Tests.antt =====
-- Records of src/rpc at concrete bytes.
use lightnfs.Prelude.{ℕ, ◌≡◌, ◌↔◌, refl, true, false, List, [], ◌∷◌}
use lightnfs.Xdr.Decode.{chain, concat, u32, opaque, take_bytes}
use lightnfs.Rpc.Call.{RpcCall, fnv_basis, parse_call}
use lightnfs.Rpc.Parse.{IsCall, header_flat, parse_call-IsCall}
use lightnfs.Rpc.Auth.{nobody}
use lightnfs.Rpc.Dispatch.{Program, handled, handle_request}
use lightnfs.Rpc.Answers.{Served, handle_request-handled_iff}

-- A NULL call of version 5 of NFS, in three segments, one of them empty.
abbrev record_bytes : ℕ → List (List ℕ)
record_bytes vers =
    (0 ∷ 0 ∷ 0 ∷ 9 ∷ 0 ∷ 0 ∷ [])
    ∷ []
    ∷ (0 ∷ 0 ∷ 0 ∷ 0 ∷ 0 ∷ 2 ∷ 0 ∷ 1 ∷ 134 ∷ 163 ∷ 0 ∷ 0 ∷ 0 ∷ vers ∷ 0 ∷ 0 ∷ 0 ∷ 0 ∷ [])
    ∷ (0 ∷ 0 ∷ 0 ∷ 0 ∷ 0 ∷ 0 ∷ 0 ∷ 0 ∷ 0 ∷ 0 ∷ 0 ∷ 0 ∷ 0 ∷ 0 ∷ 0 ∷ 0 ∷ [])
    ∷ []

abbrev nfs3 : Program
nfs3 = record { prog = 100003; vers_lo = 3; vers_hi = 3; handler = 0 }

abbrev nfs4 : Program
nfs4 = record { prog = 100003; vers_lo = 4; vers_hi = 4; handler = 1 }

abbrev registered : List Program
registered = nfs3 ∷ nfs4 ∷ []

-- The call of version 4: no arguments follow, so the decoder stands at the end of the last segment.
abbrev null_call : RpcCall
null_call = record {
  header = record {
    xid = 9;
    rpcvers = 2;
    prog = 100003;
    vers = 4;
    proc = 0;
    cred = record { flavor = 0; body = [] };
    verf = record { flavor = 0; body = [] };
  };
  args_hash = fnv_basis;
  args = record {
    source = chain ((0 ∷ 0 ∷ 0 ∷ 0 ∷ 0 ∷ 0 ∷ 0 ∷ 0 ∷ 0 ∷ 0 ∷ 0 ∷ 0 ∷ 0 ∷ 0 ∷ 0 ∷ 0 ∷ []) ∷ []);
    off = 16;
    remaining = 0;
  };
}

null_handled : handle_request registered true false (record_bytes 4) ≡ handled nfs4 null_call nobody
unfolding handle_request u32 take_bytes opaque
null_handled = refl

handle_request-handled_iff_example :
    (handle_request registered true false (record_bytes 4) ≡ handled nfs4 null_call nobody)
    ↔ Served registered true false (record_bytes 4) nfs4 null_call nobody
handle_request-handled_iff_example =
    handle_request-handled_iff registered true false (record_bytes 4) nfs4 null_call nobody

parse_call-IsCall_example :
    IsCall (parse_call (record_bytes 4)) (header_flat (concat (record_bytes 4)))
parse_call-IsCall_example = parse_call-IsCall (record_bytes 4)
