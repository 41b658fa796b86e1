-- ===== src/Locks/Types.antt =====
-- The lock types of src/backend/api.hpp and src/state/lock_mgr.hpp, and the tests on them.
use lightnfs.Prelude.{
  ℕ, ◌+◌, ◌-◌, ◌^◌, ◌≡◌, sym, Bool, true, ◌&&◌, ◌||◌, List, arith, ltb, ◌==◌, if◌then◌else◌, take,
  bytes_eq, bytes_eq_comm, ==_iff, bytes_eq_refl, bytes_eq-eq, Bool-cases, inl, inr,
}

-- An opaque owner: a buffer of 24 bytes, of which the first `len` count.
pub record LockOwnerId : Type 0 where
  pub bytes : List ℕ
  pub len : ℕ

-- An object of the backend: `len` bytes of a buffer of 51, all of which are compared.
pub record ObjId : Type 0 where
  pub len : ℕ
  pub bytes : List ℕ

pub record FileKey : Type 0 where
  pub fsid : ℕ
  pub oid : ObjId

-- The defaulted `operator==`.
unfoldable pub obj_eq : ObjId → ObjId → Bool
obj_eq a b = (a.len == b.len) && bytes_eq a.bytes b.bytes

unfoldable pub key_eq : FileKey → FileKey → Bool
unfolding obj_eq
key_eq a b = (a.fsid == b.fsid) && obj_eq a.oid b.oid

pub record LockRange : Type 0 where
  pub offset : ℕ
  pub length : ℕ

pub record LockConflict : Type 0 where
  pub owner : LockOwnerId
  pub range : LockRange
  pub exclusive : Bool

-- Bytes from `start` up to, not including, `end`.
pub record LockSeg : Type 0 where
  pub owner : LockOwnerId
  pub start : ℕ
  pub end : ℕ
  pub exclusive : Bool

abbrev pub uint64_max : ℕ
uint64_max = 2 ^ 64 - 1

unfoldable pub same_owner : LockOwnerId → LockOwnerId → Bool
same_owner a b = (a.len == b.len) && bytes_eq (take a.len a.bytes) (take a.len b.bytes)

unfoldable pub range_end : LockRange → ℕ
range_end r =
    if r.length == uint64_max || ltb (uint64_max - r.length) r.offset
    then uint64_max
    else r.offset + r.length

unfoldable pub to_range : ℕ → ℕ → LockRange
to_range start end = record {
  offset = start;
  length = if end == uint64_max then uint64_max else end - start;
}

abbrev pub overlaps : LockSeg → ℕ → ℕ → Bool
overlaps s start end = ltb s.start end && ltb start s.end

unfoldable pub conflict_of : LockSeg → LockConflict
conflict_of s = record { owner = s.owner; range = to_range s.start s.end; exclusive = s.exclusive }

-- `same_owner` is an equivalence.
pub same_owner_refl : (a : LockOwnerId) → same_owner a a ≡ true
unfolding same_owner
same_owner_refl a = ground (arith, bytes_eq_refl (take a.len a.bytes))

same_owner_len : (a b : LockOwnerId) → same_owner a b ≡ true → a.len ≡ b.len
unfolding same_owner
same_owner_len a b h = ground arith

same_owner_bytes :
    (a b : LockOwnerId) → same_owner a b ≡ true → take a.len a.bytes ≡ take a.len b.bytes
unfolding same_owner
same_owner_bytes a b h = ground (arith, bytes_eq-eq (take a.len a.bytes) (take a.len b.bytes))

-- Two ids of one owner compare alike to any third.
pub same_owner_cong :
    (a b c : LockOwnerId) → same_owner a b ≡ true → same_owner a c ≡ same_owner b c
unfolding same_owner
same_owner_cong a b c h =
    let len : a.len ≡ b.len = same_owner_len a b h in
    let bytes : take a.len a.bytes ≡ take a.len b.bytes = same_owner_bytes a b h in
    rw bytes (rw len)

pub same_owner_comm : (a b : LockOwnerId) → same_owner a b ≡ same_owner b a
unfolding same_owner
same_owner_comm a b = elim (Bool-cases (a.len == b.len)) [
  | inl e ↦
      let len : b.len ≡ a.len = sym ((==_iff a.len b.len).0 e) in
      rw (len) (ground (arith, bytes_eq_comm (take a.len a.bytes) (take a.len b.bytes)))
  | inr e ↦ ground arith
]

pub key_eq_refl : (k : FileKey) → key_eq k k ≡ true
unfolding key_eq
key_eq_refl k = ground (arith, bytes_eq_refl k.oid.bytes)

pub key_eq-eq : (j k : FileKey) → key_eq j k ≡ true → j ≡ k
unfolding key_eq
key_eq-eq j k h = ground (arith, bytes_eq-eq j.oid.bytes k.oid.bytes)
