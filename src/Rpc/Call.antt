-- ===== src/Rpc/Call.antt =====
-- `parse_call` of src/rpc/rpc_msg.cpp, with the types of rpc_msg.hpp.
use lightnfs.Prelude.{
  ℕ, ◌+◌, ◌-◌, ◌*◌, ◌%◌, ◌^◌, min, bit_xor, not, ◌&&◌, Option, none, some, List, [], ◌∷◌, ltb, leb,
  ◌==◌, if◌then◌else◌, length, take, drop, ◌>>=◌,
}
use lightnfs.Xdr.Decode.{XdrDec, concat, of_chain, u32, opaque}

pub record OpaqueAuth : Type 0 where
  pub flavor : ℕ
  pub body : List ℕ

-- The fields up to the verifier.
pub record Header : Type 0 where
  pub xid : ℕ
  pub rpcvers : ℕ
  pub prog : ℕ
  pub vers : ℕ
  pub proc : ℕ
  pub cred : OpaqueAuth
  pub verf : OpaqueAuth

pub record RpcCall : Type 0 where
  pub header : Header
  pub args_hash : ℕ
  pub args : XdrDec

abbrev pub call_type : ℕ
call_type = 0

abbrev pub max_auth_body : ℕ
max_auth_body = 400

unfoldable pub opaque_auth : XdrDec → Option (OpaqueAuth × XdrDec)
opaque_auth d = do
  (flavor, d) ← u32 d
  (body, d) ← opaque max_auth_body d
  some (record { flavor = flavor; body = body }, d)

-- What follows the message type.
unfoldable pub header_rest : ℕ → XdrDec → Option (Header × XdrDec)
unfolding opaque_auth
header_rest xid d = do
  (rpcvers, d) ← u32 d
  (prog, d) ← u32 d
  (vers, d) ← u32 d
  (proc, d) ← u32 d
  (cred, d) ← opaque_auth d
  (verf, d) ← opaque_auth d
  some (
    record {
      xid = xid;
      rpcvers = rpcvers;
      prog = prog;
      vers = vers;
      proc = proc;
      cred = cred;
      verf = verf;
    },
    d,
  )

unfoldable pub header : XdrDec → Option (Header × XdrDec)
unfolding header_rest
header d = do
  (xid, d) ← u32 d
  (mtype, d) ← u32 d
  if not (mtype == call_type) then none else header_rest xid d

-- FNV-1a.
abbrev pub fnv_basis : ℕ
fnv_basis = 1469598103934665603

unfoldable pub fnv : ℕ → List ℕ → ℕ
fnv h [] = h
fnv h (b ∷ bytes) = fnv (bit_xor h b * 1099511628211 % 2 ^ 64) bytes

-- Where the arguments begin in a segment, or its end.
unfoldable pub begin_of : ℕ → ℕ → List ℕ → ℕ
begin_of args_off skipped s =
    if ltb skipped args_off then min (length s) (args_off - skipped) else 0

-- The loop over the segments: `skipped` bytes of the header are behind, `want` are to be hashed.
unfoldable pub hash_segs : ℕ → ℕ → ℕ → ℕ → List (List ℕ) → ℕ
unfolding fnv begin_of
hash_segs args_off skipped want h [] = h
hash_segs args_off skipped want h (s ∷ segs) =
    let begin = begin_of args_off skipped s in
    let next = hash_segs args_off (skipped + begin) want h segs in
    let n = min (length s - begin) want in
    let hashed =
      hash_segs args_off (skipped + begin) (want - n) (fnv h (take n (drop begin s))) segs in
    if want == 0 then h else if ltb skipped args_off && leb (length s) begin then next else hashed

-- The hash covers the first 256 bytes of the arguments.
unfoldable pub parse_call : List (List ℕ) → Option RpcCall
unfolding header hash_segs
parse_call segs = do
  (h, d) ← header (of_chain segs)
  some (record {
    header = h;
    args_hash =
        hash_segs (length (concat segs) - d.remaining) 0 (min d.remaining 256) fnv_basis segs;
    args = d;
  })
