-- ===== src/Opens/Io.antt =====
-- Which IO `check_io` of src/state/state_mgr.cpp lets through.
use mathlib.Core.Path.{subst}
use lightnfs.Prelude.{
  ℕ, ◌≡◌, ◌↔◌, refl, sym, ◌∙◌, true, false, ◌||◌, not, Option, none, some, ◌==◌, ==_iff, any_bit,
  Bool-cases, inl, inr, arith,
}
use lightnfs.Maps.{bytes, number, find}
use lightnfs.Nfs4.Status.{Status}
use lightnfs.Locks.Types.{FileKey, key_eq}
use lightnfs.Sessions.Types.{StateMgr}
use lightnfs.Opens.Unlink.{file_key}
use lightnfs.Opens.Open.{Stateid}
use lightnfs.Opens.Stateids.{
  is_special, is_current, check_seqid, is_ok, open_of, io_status, check_found, check_io,
}

-- The state allows the client this IO on this file.
pub record IsAllowed (m : StateMgr) (sid : Stateid) (clientid : ℕ) (key : FileKey) (need r : ℕ)
    : Type 0 where
  pub live : (m.clients (m.opens.recs r).client).expired ≡ false
  pub of_client : (m.clients (m.opens.recs r).client).clientid ≡ clientid
  pub of_file : key_eq (file_key (m.opens.recs r)) key ≡ true
  pub of_version : ((sid.seqid == 0) || (sid.seqid == (m.opens.recs r).seqid)) ≡ true
  pub opened : any_bit (m.opens.recs (open_of m r)).access need ≡ true

seqid-ok : (s n : ℕ) → is_ok (check_seqid s n) ≡ ((s == 0) || (s == n))
unfolding check_seqid
seqid-ok s n = ground arith

ok_not : (s : Status) → s ≡ Status.ok → is_ok s ≡ true
ok_not s h = rw h

io_status-IsAllowed :
    (m : StateMgr) (r : ℕ) (sid : Stateid) (clientid : ℕ) (key : FileKey) (need : ℕ)
    → io_status m r sid clientid key need ≡ Status.ok
    → IsAllowed m sid clientid key need r
unfolding io_status
io_status-IsAllowed m r sid clientid key need h =
    let rec = m.opens.recs r in
    let c = m.clients rec.client in
    let seq = check_seqid sid.seqid rec.seqid in
    elim (Bool-cases c.expired) [
      | inl q ↦ absurd (not_ok (rw q at h) (λ e. cc))
      | inr q ↦
          elim (Bool-cases (not (c.clientid == clientid) || not (key_eq (file_key rec) key))) [
            | inl q1 ↦ absurd (not_ok (rw (q, q1) at h) (λ e. cc))
            | inr q1 ↦ elim (Bool-cases (is_ok seq)) [
              | inl q2 ↦ elim (Bool-cases (any_bit (m.opens.recs (open_of m r)).access need)) [
                | inl q3 ↦ record {
                  live = q;
                  of_client = (==_iff c.clientid clientid).0 (ground arith);
                  of_file = ground arith;
                  of_version = sym (seqid-ok sid.seqid rec.seqid) ∙ q2;
                  opened = q3;
                }
                | inr q3 ↦ absurd (not_ok (rw (q, q1, q2, q3) at h) (λ e. cc))
              ]
              | inr q2 ↦ absurd (ok_false seq q2 (rw (q, q1, q2) at h))
            ]
          ]
    ]
  where
    not_ok : {s : Status} → s ≡ Status.ok → ¬ (s ≡ Status.ok) → ⊥
    not_ok h k = k h

    ok_false : (s : Status) → is_ok s ≡ false → s ≡ Status.ok → ⊥
    ok_false s h k = cc (h, ok_not s k)

IsAllowed-io_status :
    (m : StateMgr) (r : ℕ) (sid : Stateid) (clientid : ℕ) (key : FileKey) (need : ℕ)
    → IsAllowed m sid clientid key need r
    → io_status m r sid clientid key need ≡ Status.ok
unfolding io_status
IsAllowed-io_status m r sid clientid key need k =
    let rec = m.opens.recs r in
    let c = m.clients rec.client in
    let mine : (not (c.clientid == clientid) || not (key_eq (file_key rec) key)) ≡ false =
      rw ((==_iff c.clientid clientid).1 k.of_client, k.of_file) refl in
    let seq = seqid-ok sid.seqid rec.seqid ∙ k.of_version in rw (k.live, mine, seq, k.opened) refl

check_found-IsAllowed :
    (m : StateMgr) (o : Option ℕ) (sid : Stateid) (clientid : ℕ) (key : FileKey) (need : ℕ)
    → ((check_found m o sid clientid key need).status ≡ Status.ok)
      ↔ ((r : ℕ) × (o ≡ some r) × IsAllowed m sid clientid key need r)
unfolding check_found
check_found-IsAllowed m none sid clientid key need = (λ h. absurd (bad h), λ k. absurd (no k.1))
  where
    bad : Status.bad_stateid ≡ Status.ok → ⊥
    bad h = cc

    no : {r : ℕ} → none ≡ some r → ⊥
    no h = cc
check_found-IsAllowed m (some r) sid clientid key need = (
  λ h. (r, refl, io_status-IsAllowed m r sid clientid key need h),
  λ k. allowed_again k.0 (one_state k.1) k.2,
)
  where
    one_state : {r' : ℕ} → some r ≡ some r' → r' ≡ r
    one_state h = cc

    allowed_again :
        (r' : ℕ)
        → r' ≡ r
        → IsAllowed m sid clientid key need r'
        → io_status m r sid clientid key need ≡ Status.ok
    allowed_again r' e k =
        IsAllowed-io_status m r sid clientid key need
          (subst (IsAllowed m sid clientid key need) e k)

stale_not : Status.stale_stateid ≡ Status.ok → ⊥
stale_not h = cc

-- IO with an ordinary stateid is let through exactly if the stateid is of this epoch, a state stands
-- under it in the table whose client has not expired, is the one that asks, and has it on that file, the
-- version is 0 or the state's own, and the open (for a lock, the open that it derives from) has some bit
-- of the access that is needed.
pub check_io-ok_iff :
    (m : StateMgr) (sid : Stateid) (clientid : ℕ) (key : FileKey) (need now clock : ℕ)
    → is_special sid ≡ false
    → ((check_io m sid clientid key need now clock).0.status ≡ Status.ok) ↔ (
        (is_current m sid ≡ true)
        × (r : ℕ) × (find sid.other m.opens.table ≡ some r)
        × IsAllowed m sid clientid key need r)
unfolding check_io
check_io-ok_iff m sid clientid key need now clock h =
    let o = find sid.other m.opens.table in
    let found = check_found-IsAllowed m o sid clientid key need in
    elim (Bool-cases (is_current m sid)) [
      | inl q ↦
          rw (h, q)
            (λ k. (refl, (found.0 k).0, (found.0 k).1, (found.0 k).2), λ k. found.1 (k.1, k.2, k.3))
      | inr q ↦ rw (h, q) (λ k. absurd (stale_not k), λ k. absurd (stale k.0))
    ]
  where
    stale : false ≡ true → ⊥
    stale h = cc
