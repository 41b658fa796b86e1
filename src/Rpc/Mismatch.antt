-- ===== src/Rpc/Mismatch.antt =====
-- The answer PROG_MISMATCH of src/rpc/dispatch.cpp.
use mathlib.Core.List.{Mem}
use lightnfs.Prelude.{ℕ, ◌≡◌, Bool, true, false, Option, none, some, List, All}
use lightnfs.Rpc.Call.{RpcCall}
use lightnfs.Rpc.Programs.{Widens}
use lightnfs.Rpc.Dispatch.{Program, Reply, prog_mismatch, find_program}

-- The answer to a call of a version that is not served.
abbrev pub Mismatched : List Program → Option RpcCall → ℕ → ℕ → ℕ → Type 0
Mismatched programs none xid low high = ⊥
Mismatched programs (some call) xid low high =
    (xid ≡ call.header.xid)
    × (find_program call.header.prog call.header.vers programs ≡ none)
    × ((p : Program) × Mem p programs × (p.prog ≡ call.header.prog))
    × All (Widens call.header.prog (low, high)) programs

abbrev is_mismatch : Reply → Bool
is_mismatch (prog_mismatch low high) = true
is_mismatch _ = false
