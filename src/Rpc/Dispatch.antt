-- ===== src/Rpc/Dispatch.antt =====
-- src/rpc/dispatch.cpp, with the reply headers of src/rpc/rpc_msg.cpp.
use lightnfs.Prelude.{
  ℕ, ◌-◌, ◌^◌, ◌&&◌, ◌||◌, not, min, max, Bool, false, Option, none, some, List, [], ◌∷◌, leb, ◌==◌,
  if◌then◌else◌,
}
use lightnfs.Errmap.Errno
use lightnfs.Rpc.Call.{RpcCall, parse_call}
use lightnfs.Rpc.Auth.{Cred, AuthResult, authenticated, auth_failed, authenticate}

-- A registered program and its versions. `handler` names the function that serves it.
pub record Program : Type 0 where
  pub prog : ℕ
  pub vers_lo : ℕ
  pub vers_hi : ℕ
  pub handler : ℕ

-- The words of a reply after its xid.
pub data Reply : Type 0 where
  prog_unavail garbage_args system_err rpc_mismatch : Reply
  prog_mismatch : ℕ → ℕ → Reply
  auth_error : ℕ → Reply

-- The reply header as `encode_reply_*` writes it, in words of 32 bits.
unfoldable pub reply_words : ℕ → Reply → List ℕ
reply_words xid prog_unavail = xid ∷ 1 ∷ 0 ∷ 0 ∷ 0 ∷ 1 ∷ []
reply_words xid garbage_args = xid ∷ 1 ∷ 0 ∷ 0 ∷ 0 ∷ 4 ∷ []
reply_words xid system_err = xid ∷ 1 ∷ 0 ∷ 0 ∷ 0 ∷ 5 ∷ []
reply_words xid rpc_mismatch = xid ∷ 1 ∷ 1 ∷ 0 ∷ 2 ∷ 2 ∷ []
reply_words xid (prog_mismatch low high) = xid ∷ 1 ∷ 0 ∷ 0 ∷ 0 ∷ 2 ∷ low ∷ high ∷ []
reply_words xid (auth_error stat) = xid ∷ 1 ∷ 1 ∷ 1 ∷ stat ∷ []

abbrev pub auth_badcred : ℕ
auth_badcred = 1

abbrev pub auth_rejectedcred : ℕ
auth_rejectedcred = 2

abbrev pub auth_badverf : ℕ
auth_badverf = 3

abbrev pub auth_tooweak : ℕ
auth_tooweak = 5

-- The first program of that number and version, and whether one of that number was seen.
unfoldable pub find_program : ℕ → ℕ → List Program → Option Program
find_program prog vers [] = none
find_program prog vers (p ∷ programs) =
    let rest = find_program prog vers programs in
    if not (p.prog == prog)
    then rest
    else if leb p.vers_lo vers && leb vers p.vers_hi
    then some p
    else rest

unfoldable pub prog_known : ℕ → List Program → Bool
prog_known prog [] = false
prog_known prog (p ∷ programs) = p.prog == prog || prog_known prog programs

-- The loop that widens the range of versions.
unfoldable pub version_range : ℕ → List Program → ℕ → ℕ → ℕ × ℕ
version_range prog [] lo hi = (lo, hi)
version_range prog (p ∷ programs) lo hi =
    let rest = version_range prog programs lo hi in
    let wider = version_range prog programs (min lo p.vers_lo) (max hi p.vers_hi) in
    if not (p.prog == prog) then rest else wider

-- What becomes of a record: dropped, refused by a reply header, or given to a handler.
pub data Outcome : Type 0 where
  dropped : Outcome
  refused : ℕ → Reply → Outcome
  handled : Program → RpcCall → Cred → Outcome

unfoldable pub auth_stat : ℕ → ℕ
auth_stat e =
    if e == Errno.eperm
    then auth_rejectedcred
    else if e == Errno.bad_verf
    then auth_badverf
    else auth_badcred

unfoldable pub with_cred : Program → RpcCall → AuthResult → Outcome
unfolding auth_stat
with_cred p call (authenticated cred) = handled p call cred
with_cred p call (auth_failed e) = refused call.header.xid (auth_error (auth_stat e))

-- `tls_required` is the policy of the connection, `tls_active` whether it is encrypted.
module _ (programs : List Program) (tls_required tls_active : Bool) where
  unfoldable pub with_program : RpcCall → Option Program → Outcome
  unfolding with_cred authenticate prog_known version_range
  with_program call none =
      if not (prog_known call.header.prog programs)
      then refused call.header.xid prog_unavail
      else let range = version_range call.header.prog programs (2 ^ 32 - 1) 0 in
        refused call.header.xid (prog_mismatch range.0 range.1)
  with_program call (some p) = with_cred p call (authenticate call.header)

  unfoldable pub with_call : Option RpcCall → Outcome
  unfolding with_program find_program
  with_call none = dropped
  with_call (some call) =
      if not (call.header.rpcvers == 2)
      then refused call.header.xid rpc_mismatch
      else if tls_required && not tls_active && not (call.header.proc == 0)
      then refused call.header.xid (auth_error auth_tooweak)
      else with_program call (find_program call.header.prog call.header.vers programs)

  -- `handle_request` up to the handler.
  unfoldable pub handle_request : List (List ℕ) → Outcome
  unfolding with_call parse_call
  handle_request segs = with_call (parse_call segs)

-- What the dispatcher itself sends. A handler that throws leaves SYSTEM_ERR to it.
unfoldable pub sent : (Program → RpcCall → Cred → Bool) → Outcome → Option (ℕ × Reply)
sent throws dropped = none
sent throws (refused xid reply) = some (xid, reply)
sent throws (handled p call cred) =
    if throws p call cred then some (call.header.xid, system_err) else none
