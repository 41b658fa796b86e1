-- ===== src/Rpc/Auth.antt =====
-- src/rpc/auth.cpp and auth.hpp: AUTH_NONE, AUTH_SYS and the registry of both.
use lightnfs.Prelude.{
  ℕ, zero, suc, ◌||◌, not, Bool, true, false, Option, none, some, List, [], ◌∷◌, ltb, ◌==◌,
  if◌then◌else◌, ◌>>=◌,
}
use lightnfs.Errmap.Errno
use lightnfs.Xdr.Decode.{XdrDec, of_flat, u32, opaque}
use lightnfs.Rpc.Call.{OpaqueAuth, Header}

pub data Flavor : Type 0 where
  auth_none auth_sys : Flavor

pub record Cred : Type 0 where
  pub uid : ℕ
  pub gid : ℕ
  pub gids : List ℕ
  pub flavor : Flavor
  pub anonymous : Bool
  pub machine : List ℕ

-- A credential, or an `Errno`.
pub data AuthResult : Type 0 where
  authenticated : Cred → AuthResult
  auth_failed : ℕ → AuthResult

abbrev pub nobody : Cred
nobody = record {
  uid = 65534;
  gid = 65534;
  gids = [];
  flavor = auth_none;
  anonymous = true;
  machine = [];
}

-- The loop over the groups.
unfoldable pub read_gids : ℕ → XdrDec → Option (List ℕ × XdrDec)
read_gids zero d = some ([], d)
read_gids (suc n) d = do (g, d) ← u32 d; (gids, d) ← read_gids n d; some (g ∷ gids, d)

-- The body of AUTH_SYS. Every failure is EACCES.
unfoldable pub auth_sys_body : XdrDec → Option Cred
unfolding read_gids
auth_sys_body d = do
  (stamp, d) ← u32 d
  (machine, d) ← opaque 255 d
  (uid, d) ← u32 d
  (gid, d) ← u32 d
  (ngids, d) ← u32 d
  (gids, d) ← (if ltb 16 ngids then none else read_gids ngids d)
  some (record {
    uid = uid;
    gid = gid;
    gids = gids;
    flavor = auth_sys;
    anonymous = false;
    machine = machine;
  })

abbrev pub is_empty : List ℕ → Bool
is_empty [] = true
is_empty (b ∷ bytes) = false

abbrev pub or_eacces : Option Cred → AuthResult
or_eacces none = auth_failed Errno.eacces
or_eacces (some c) = authenticated c

unfoldable pub auth_sys_authenticate : OpaqueAuth → OpaqueAuth → AuthResult
unfolding auth_sys_body
auth_sys_authenticate cred verf =
    if not (verf.flavor == 0) || not (is_empty verf.body)
    then auth_failed Errno.bad_verf
    else or_eacces (auth_sys_body (of_flat cred.body))

-- The default registry: flavor 0 and flavor 1.
unfoldable pub authenticate : Header → AuthResult
unfolding auth_sys_authenticate
authenticate h =
    if h.cred.flavor == 0
    then authenticated nobody
    else if h.cred.flavor == 1
    then auth_sys_authenticate h.cred h.verf
    else auth_failed Errno.eperm
