-- ===== src/Rpc/Parse.antt =====
-- `parse_call` of src/rpc/rpc_msg.cpp beside the reading of a call header from plain bytes.
use lightnfs.Prelude.{
  ℕ, ◌≡◌, refl, ap, ◌∙◌, ◌-◌, min, arith, not, Option, none, some, List, [], ◌==◌, if◌then◌else◌,
  length, take, drop, ◌>>=◌, take-min,
}
use lightnfs.Xdr.Decode.{XdrDec, concat, of_chain}
use lightnfs.Xdr.Flat.{
  of_chain-IsDec, view, IsDec, Agrees, bind-Agrees, test-Agrees, u32-Agrees, opaque-Agrees,
  u32_flat, opaque_flat,
}
use lightnfs.Xdr.Suffix.{
  Suffix, bind-Suffix, test-Suffix, u32_flat-Suffix, opaque_flat-Suffix, drop-Suffix,
}
use lightnfs.Rpc.Hash.{hash_segs-fnv}
use lightnfs.Rpc.Call.{
  OpaqueAuth, Header, RpcCall, call_type, max_auth_body, opaque_auth, header_rest, header, fnv,
  fnv_basis, hash_segs, parse_call,
}

-- The header on plain bytes, as RFC 5531 has it.
unfoldable pub opaque_auth_flat : List ℕ → Option (OpaqueAuth × List ℕ)
opaque_auth_flat b = do
  (flavor, b) ← u32_flat b
  (body, b) ← opaque_flat max_auth_body b
  some (record { flavor = flavor; body = body }, b)

unfoldable pub header_rest_flat : ℕ → List ℕ → Option (Header × List ℕ)
unfolding opaque_auth_flat
header_rest_flat xid b = do
  (rpcvers, b) ← u32_flat b
  (prog, b) ← u32_flat b
  (vers, b) ← u32_flat b
  (proc, b) ← u32_flat b
  (cred, b) ← opaque_auth_flat b
  (verf, b) ← opaque_auth_flat b
  some (
    record {
      xid = xid;
      rpcvers = rpcvers;
      prog = prog;
      vers = vers;
      proc = proc;
      cred = cred;
      verf = verf;
    },
    b,
  )

unfoldable pub header_flat : List ℕ → Option (Header × List ℕ)
unfolding header_rest_flat
header_flat b = do
  (xid, b) ← u32_flat b
  (mtype, b) ← u32_flat b
  if not (mtype == call_type) then none else header_rest_flat xid b

opaque_auth-Agrees : (d : XdrDec) → IsDec d → Agrees (opaque_auth d) (opaque_auth_flat (view d))
unfolding opaque_auth opaque_auth_flat
opaque_auth-Agrees d h =
    bind-Agrees _ _ _ _ (u32-Agrees d h) λ flavor d h.
      bind-Agrees _ _ _ _ (opaque-Agrees max_auth_body d h) λ body d h. (refl, refl, h)

header_rest-Agrees :
    (xid : ℕ) (d : XdrDec) → IsDec d → Agrees (header_rest xid d) (header_rest_flat xid (view d))
unfolding header_rest header_rest_flat
header_rest-Agrees xid d h = bind-Agrees _ _ _ _ (u32-Agrees d h) λ rpcvers d h.
    bind-Agrees _ _ _ _ (u32-Agrees d h) λ prog d h.
      bind-Agrees _ _ _ _ (u32-Agrees d h) λ vers d h.
        bind-Agrees _ _ _ _ (u32-Agrees d h) λ proc d h.
          bind-Agrees _ _ _ _ (opaque_auth-Agrees d h)
            λ cred d h. bind-Agrees _ _ _ _ (opaque_auth-Agrees d h) λ verf d h. (refl, refl, h)

pub header-Agrees : (d : XdrDec) → IsDec d → Agrees (header d) (header_flat (view d))
unfolding header header_flat
header-Agrees d h = bind-Agrees _ _ _ _ (u32-Agrees d h) λ xid d h.
    bind-Agrees _ _ _ _ (u32-Agrees d h) λ mtype d h.
      test-Agrees (not (mtype == call_type)) (header_rest xid d) (header_rest_flat xid (view d))
        (header_rest-Agrees xid d h)

opaque_auth_flat-Suffix : (b : List ℕ) → Suffix b (opaque_auth_flat b)
unfolding opaque_auth_flat
opaque_auth_flat-Suffix b =
    bind-Suffix _ _ _ (u32_flat-Suffix b)
      λ flavor b. bind-Suffix _ _ _ (opaque_flat-Suffix max_auth_body b) λ body b. ([], refl)

header_rest_flat-Suffix : (xid : ℕ) (b : List ℕ) → Suffix b (header_rest_flat xid b)
unfolding header_rest_flat
header_rest_flat-Suffix xid b = bind-Suffix _ _ _ (u32_flat-Suffix b) λ rpcvers b.
    bind-Suffix _ _ _ (u32_flat-Suffix b) λ prog b. bind-Suffix _ _ _ (u32_flat-Suffix b) λ vers b.
      bind-Suffix _ _ _ (u32_flat-Suffix b) λ proc b.
        bind-Suffix _ _ _ (opaque_auth_flat-Suffix b)
          λ cred b. bind-Suffix _ _ _ (opaque_auth_flat-Suffix b) λ verf b. ([], refl)

header_flat-Suffix : (b : List ℕ) → Suffix b (header_flat b)
unfolding header_flat
header_flat-Suffix b = bind-Suffix _ _ _ (u32_flat-Suffix b) λ xid b.
    bind-Suffix _ _ _ (u32_flat-Suffix b) λ mtype b.
      test-Suffix b (not (mtype == call_type)) (header_rest_flat xid b)
        (header_rest_flat-Suffix xid b)

-- The call that RFC 5531 finds in the bytes, with the hash of the first 256 bytes after its header,
-- and a decoder that stands after the header.
abbrev pub IsCall : Option RpcCall → Option (Header × List ℕ) → Type 0
IsCall none none = Unit {0}
IsCall none (some p) = ⊥
IsCall (some c) none = ⊥
IsCall (some c) (some p) =
    (c.header ≡ p.0)
    × (c.args_hash ≡ fnv fnv_basis (take 256 p.1))
    × (view c.args ≡ p.1)
    × IsDec c.args

parsed :
    (segs : List (List ℕ)) (r : Option (Header × XdrDec)) (p : Option (Header × List ℕ))
    → Agrees r p
    → Suffix (concat segs) p
    → IsCall
        (r >>= λ x. some (record {
          header = x.0;
          args_hash =
              hash_segs
                (length (concat segs) - x.1.remaining)
                0
                (min x.1.remaining 256)
                fnv_basis
                segs;
          args = x.1;
        }))
        p
parsed segs none none h s = tt
parsed segs none (some p) h s = h
parsed segs (some r) none h s = h
parsed segs (some r) (some p) h s =
    let left : r.1.remaining ≡ length p.1 = h.2.counted ∙ ap length h.1 in
    let at_args : length (concat segs) - length p.1 - 0 ≡ length (concat segs) - length p.1 =
      omega arith in
    let start = drop-Suffix (concat segs) s.0 p.1 s.1 in
    (
      h.0,
      rw left (
          hash_segs-fnv (length (concat segs) - length p.1) 0 (min (length p.1) 256) fnv_basis segs
            (omega arith)
          ∙ ap (λ (k : ℕ). fnv fnv_basis (take (min (length p.1) 256) (drop k (concat segs))))
              at_args
          ∙ ap (λ (t : List ℕ). fnv fnv_basis (take (min (length p.1) 256) t)) start
          ∙ ap (fnv fnv_basis) (take-min 256 p.1)),
      h.1,
      h.2,
    )

-- However a record is cut into segments, `parse_call` finds in it what RFC 5531 finds in its bytes,
-- or fails with it; the hash is the FNV-1a hash of the first 256 bytes of the arguments, and the
-- decoder of the arguments stands at their start.
pub parse_call-IsCall :
    (segs : List (List ℕ)) → IsCall (parse_call segs) (header_flat (concat segs))
unfolding parse_call
parse_call-IsCall segs =
    parsed segs (header (of_chain segs)) (header_flat (concat segs))
      (header-Agrees (of_chain segs) (of_chain-IsDec segs)) (header_flat-Suffix (concat segs))
