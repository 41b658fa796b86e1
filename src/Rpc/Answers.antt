-- ===== src/Rpc/Answers.antt =====
-- Which records `handle_request` of src/rpc/dispatch.cpp gives to a handler, and which it refuses.
use lightnfs.Prelude.{
  ℕ, ◌≡◌, ◌↔◌, refl, ap, arith, ◌&&◌, not, inl, inr, Bool, false, Option, none, some, List, ◌==◌,
  Bool-cases,
}
use lightnfs.Rpc.Call.{RpcCall, parse_call}
use lightnfs.Rpc.Auth.{Cred, AuthResult, authenticated, auth_failed, authenticate}
use lightnfs.Rpc.Accepts.{
  Accepted, IsFirst, authenticate-Accepted, Accepted-authenticate, find_program-IsFirst,
  IsFirst-find_program,
}
use lightnfs.Rpc.Dispatch.{
  Program, Reply, find_program, prog_known, dropped, refused, handled, with_cred, with_program,
  with_call, handle_request,
}

dropped-handled : {p : Program} {call : RpcCall} {cred : Cred} → dropped ≡ handled p call cred → ⊥
dropped-handled h = cc

refused-handled :
    {xid : ℕ} {reply : Reply} {p : Program} {call : RpcCall} {cred : Cred}
    → refused xid reply ≡ handled p call cred
    → ⊥
refused-handled h = cc

with_cred-handled :
    (p : Program) (call : RpcCall) (a : AuthResult) (q : Program) (call' : RpcCall) (cred : Cred)
    → with_cred p call a ≡ handled q call' cred
    → (p ≡ q) × (call ≡ call') × (a ≡ authenticated cred)
unfolding with_cred
with_cred-handled p call (authenticated c) q call' cred h = (cc, cc, cc)
with_cred-handled p call (auth_failed e) q call' cred h = cc

module _ (programs : List Program) (required active : Bool) where
  -- What a record must be for a handler to have it.
  abbrev pub Served : List (List ℕ) → Program → RpcCall → Cred → Type 0
  Served segs p call cred =
      (parse_call segs ≡ some call)
      × (call.header.rpcvers ≡ 2)
      × ((required && not active && not (call.header.proc == 0)) ≡ false)
      × IsFirst call.header.prog call.header.vers programs p
      × Accepted call.header cred

  with_program-handled :
      (call : RpcCall) (o : Option Program) (p : Program) (call' : RpcCall) (cred : Cred)
      → with_program programs required active call o ≡ handled p call' cred
      → (o ≡ some p) × (call ≡ call') × (authenticate call.header ≡ authenticated cred)
  unfolding with_program
  with_program-handled call none p call' cred h =
      elim (Bool-cases (not (prog_known call.header.prog programs))) [
        | inl q ↦ absurd (refused-handled (rw q at h))
        | inr q ↦ absurd (refused-handled (rw q at h))
      ]
  with_program-handled call (some o) p call' cred h =
      let (same, same_call, ok) =
        with_cred-handled o call (authenticate call.header) p call' cred h in
      (ap some same, same_call, ok)

  served :
      (segs : List (List ℕ)) (o : Option RpcCall) (p : Program) (call : RpcCall) (cred : Cred)
      → parse_call segs ≡ o
      → with_call programs required active o ≡ handled p call cred
      → Served segs p call cred
  unfolding with_call
  served segs none p call cred e h = absurd (dropped-handled h)
  served segs (some c) p call cred e h = elim (Bool-cases (not (c.header.rpcvers == 2))) [
    | inl a ↦ absurd (refused-handled (rw a at h))
    | inr a ↦ elim (Bool-cases (required && not active && not (c.header.proc == 0))) [
      | inl b ↦ absurd (refused-handled (rw (a, b) at h))
      | inr b ↦
          let (found, same, ok) =
            with_program-handled c (find_program c.header.prog c.header.vers programs) p call cred
              (rw (a, b) at h) in
          let version : c.header.rpcvers ≡ 2 = ground arith in
          rw (← same) (
            e,
            version,
            b,
            find_program-IsFirst c.header.prog c.header.vers programs p found,
            authenticate-Accepted c.header cred ok,
          )
    ]
  ]

  -- A record is given to a program as a call with a credential exactly when `parse_call` finds that
  -- call in it, of RPC version 2; the call is NULL if the connection must be encrypted and is not; the
  -- program is the first registered one that has its number and its version in its range; and the
  -- credential is nobody for AUTH_NONE, or, for AUTH_SYS with an empty verifier of flavor AUTH_NONE,
  -- what RFC 5531 reads in the bytes of its body.
  pub handle_request-handled_iff :
      (segs : List (List ℕ)) (p : Program) (call : RpcCall) (cred : Cred)
      → (handle_request programs required active segs ≡ handled p call cred)
        ↔ Served segs p call cred
  unfolding handle_request with_call with_program with_cred
  handle_request-handled_iff segs p call cred = (
    served segs (parse_call segs) p call cred refl,
    λ (parsed, version, tls, first, ok).
        let found = IsFirst-find_program call.header.prog call.header.vers programs p first in
        rw (parsed, version, tls, found, Accepted-authenticate call.header cred ok),
  )
