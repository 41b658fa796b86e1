-- ===== src/Opens/Narrowed.antt =====
-- OPEN_DOWNGRADE of src/state/state_mgr.cpp, and the share reservations of its file.
use lightnfs.Prelude.{
  ℕ, ◌<◌, ◌^◌, ◌≡◌, refl, sym, ◌∙◌, Bool, false, ◌||◌, not, Option, List, ◌==◌, ==_iff,
  bit_and-within, Bool-cases, inl, inr, arith,
}
use lightnfs.Maps.{number}
use lightnfs.Locks.Types.{FileKey}
use lightnfs.Sessions.Types.{StateMgr}
use lightnfs.Opens.Types.{StateRec}
use lightnfs.Opens.Unlink.{is_open_state}
use lightnfs.Opens.Open.{Stateid, share_conflict, is_dead, is_same}
use lightnfs.Opens.Exclusive.{excludes, IsExclusive, share_conflict_comm, is_same_comm, same_not}
use lightnfs.Opens.Stateids.{
  Found, refused, state, find_state, check_seqid, is_ok, is_elsewhere, any_beyond, downgraded,
  downgrade_found, open_downgrade,
}

-- What excludes nothing still excludes nothing with fewer bits.
share_conflict-within :
    (a d : ℕ) (x z : StateRec)
    → a < 2 ^ 32
    → d < 2 ^ 32
    → any_beyond a x.access ≡ false
    → any_beyond d x.deny ≡ false
    → share_conflict x.access x.deny z ≡ false
    → share_conflict a d z ≡ false
unfolding share_conflict
share_conflict-within a d x z ha hd p q h =
    ground (arith, bit_and-within a x.access z.deny ha, bit_and-within d x.deny z.access hd)

module _ (m : StateMgr) (r access deny : ℕ) (ha : access < 2 ^ 32) (hd : deny < 2 ^ 32)
    (p : any_beyond access (m.opens.recs r).access ≡ false)
    (q : any_beyond deny (m.opens.recs r).deny ≡ false) where
  abbrev narrowed : StateMgr
  narrowed = downgraded m r access deny

  narrowed-dead : (o : ℕ) → is_dead narrowed o ≡ is_dead m o
  unfolding is_dead
  narrowed-dead o = ground (arith, ==_iff o r)

  narrowed-same :
      (o x : ℕ)
      → is_same narrowed (narrowed.opens.recs x).client (narrowed.opens.recs x).owner o
        ≡ is_same m (m.opens.recs x).client (m.opens.recs x).owner o
  unfolding is_same
  narrowed-same o x = elim (Bool-cases (o == r)) [
    | inl s ↦ elim (Bool-cases (x == r)) [
      | inl t ↦ rw (s, t, (==_iff o r).0 s, (==_iff x r).0 t)
      | inr t ↦ rw (s, t, (==_iff o r).0 s)
    ]
    | inr s ↦ elim (Bool-cases (x == r)) [ inl t ↦ rw (s, t, (==_iff x r).0 t) | inr t ↦ rw (s, t) ]
  ]

  narrowed-excludes :
      (x : ℕ) → excludes m r x ≡ false → share_conflict access deny (m.opens.recs x) ≡ false
  narrowed-excludes x h =
      share_conflict-within access deny (m.opens.recs r) (m.opens.recs x) ha hd p q h

  narrowed-IsExclusive : (os : List ℕ) → IsExclusive m os → IsExclusive narrowed os
  narrowed-IsExclusive os c o x ho hx lo lx ne =
      let live_o = sym (narrowed-dead o) ∙ lo in
      let live_x = sym (narrowed-dead x) ∙ lx in
      let differ = sym (narrowed-same o x) ∙ ne in
      let apart = c o x ho hx live_o live_x differ in
      elim (Bool-cases (o == r)) [
        | inl s ↦ elim (Bool-cases (x == r)) [
          | inl t ↦ absurd (same_not m r (rw ((==_iff o r).0 s, (==_iff x r).0 t) at differ))
          | inr t ↦ rw (s, t) (narrowed-excludes x (rw ((==_iff o r).0 s) at apart))
        ]
        | inr s ↦ elim (Bool-cases (x == r)) [
          | inl t ↦
              let back = c x o hx ho live_x live_o (is_same_comm m o x differ) in
              rw (s, t)
                (share_conflict_comm (m.opens.recs o).access (m.opens.recs o).deny (m.opens.recs o)
                    _ refl refl
                  ∙ narrowed-excludes o (rw ((==_iff x r).0 t) at back))
          | inr t ↦ rw (s, t) apart
        ]
      ]

within_both : (z a d : Bool) → (z || a || d) ≡ false → (a ≡ false) × (d ≡ false)
within_both z a d h = ground arith

downgrade_found-IsExclusive :
    (m : StateMgr) (sid : Stateid) (clientid access deny : ℕ) (expect : Option FileKey)
    (found : Found) (os : List ℕ)
    → access < 2 ^ 32
    → deny < 2 ^ 32
    → IsExclusive m os
    → IsExclusive (downgrade_found m sid clientid access deny expect found).2 os
unfolding downgrade_found
downgrade_found-IsExclusive m sid clientid access deny expect (refused s) os ha hd c = c
downgrade_found-IsExclusive m sid clientid access deny expect (state r) os ha hd c =
    let rec = m.opens.recs r in
    let x = m.clients rec.client in
    let beyond = access == 0 || any_beyond access rec.access || any_beyond deny rec.deny in
    elim (Bool-cases (not (x.clientid == clientid) || not (is_open_state rec.type))) [
      | inl q ↦ rw q c
      | inr q ↦ elim (Bool-cases (is_elsewhere expect rec)) [
        | inl q1 ↦ rw (q, q1) c
        | inr q1 ↦ elim (Bool-cases (is_ok (check_seqid sid.seqid rec.seqid))) [
          | inl q2 ↦ elim (Bool-cases beyond) [
            | inl q3 ↦ rw (q, q1, q2, q3) c
            | inr q3 ↦
                let (pa, pd) =
                  within_both (access == 0) (any_beyond access rec.access)
                    (any_beyond deny rec.deny) q3 in
                rw (q, q1, q2, q3) (narrowed-IsExclusive m r access deny ha hd pa pd os c)
          ]
          | inr q2 ↦ rw (q, q1, q2) c
        ]
      ]
    ]

-- OPEN_DOWNGRADE keeps share reservations. If of some opens no two that live and have different owners
-- exclude one another, then none do after the call, whatever it answers. The access and the deny mode
-- that it asks for are words of 32 bits.
pub open_downgrade-IsExclusive :
    (m : StateMgr) (sid : Stateid) (clientid access deny : ℕ) (expect : Option FileKey)
    (os : List ℕ)
    → access < 2 ^ 32
    → deny < 2 ^ 32
    → IsExclusive m os
    → IsExclusive (open_downgrade m sid clientid access deny expect).2 os
unfolding open_downgrade
open_downgrade-IsExclusive m sid clientid access deny expect os ha hd c =
    downgrade_found-IsExclusive m sid clientid access deny expect (find_state m sid) os ha hd c
