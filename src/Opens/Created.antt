-- ===== src/Opens/Created.antt =====
-- Share reservations of src/state/state_mgr.cpp: a new open beside those of its file.
use mathlib.Core.Path.{subst}
use lightnfs.Prelude.{
  ℕ, ◌≡◌, inl, inr, refl, sym, ap, ◌∙◌, true, false, ◌||◌, Option, none, List, [], ◌∷◌, ◌++◌, ◌==◌,
  ==_iff, ==_refl, Bool-cases, arith,
}
use lightnfs.Maps.{bytes, number, has}
use lightnfs.Sessions.Types.{StateMgr}
use lightnfs.Opens.Types.{StateRec, FileStateRec, file}
use lightnfs.Opens.Open.{OpenArgs, share_conflict, is_dead, is_same, create, new_rec}
use lightnfs.Opens.Exclusive.{
  excludes, IsExclusive, IsClear, share_conflict_comm, is_same_comm, same_not,
}

has_last : (o r : ℕ) (os : List ℕ) → has o (os ++ r ∷ []) ≡ (has o os || r == o)
unfolding has
has_last o r [] = ground arith
has_last o r (p ∷ os) = ground (arith, has_last o r os)

-- The new open stands apart from those that are there.
abbrev pub IsNew : StateMgr → List ℕ → Type 0
IsNew m os = (o : ℕ) → has o os ≡ true → (o == m.opens.next_rec) ≡ false

create-dead :
    (m : StateMgr) (a : ℕ) (args : OpenArgs) (b : Option ℕ) (f : FileStateRec) (o : ℕ)
    → (o == m.opens.next_rec) ≡ false
    → is_dead (create m a args b f) o ≡ is_dead m o
unfolding create is_dead
create-dead m a args b f o h = rw h

create-rec :
    (m : StateMgr) (a : ℕ) (args : OpenArgs) (b : Option ℕ) (f : FileStateRec) (o : ℕ)
    → (o == m.opens.next_rec) ≡ false
    → (create m a args b f).opens.recs o ≡ m.opens.recs o
unfolding create
create-rec m a args b f o h = rw h

create-same :
    (m : StateMgr) (a : ℕ) (args : OpenArgs) (b : Option ℕ) (f : FileStateRec) (c : ℕ) (w : List ℕ)
    (o : ℕ)
    → (o == m.opens.next_rec) ≡ false
    → is_same (create m a args b f) c w o ≡ is_same m c w o
unfolding is_same
create-same m a args b f c w o h = rw (create-rec m a args b f o h)

create-new :
    (m : StateMgr) (a : ℕ) (args : OpenArgs) (b : Option ℕ) (f : FileStateRec)
    → (create m a args b f).opens.recs m.opens.next_rec ≡ new_rec m a args b
unfolding create
create-new m a args b f = rw (==_refl m.opens.next_rec)

module _ (m : StateMgr) (a : ℕ) (args : OpenArgs) (b : Option ℕ) (f : FileStateRec)
    (c : IsExclusive m f.opens) (k : IsClear m a args f.opens none none) (n : IsNew m f.opens) where
  -- The new open and one that was there.
  created-excludes :
      (p : ℕ)
      → has p f.opens ≡ true
      → is_dead (create m a args b f) p ≡ false
      → is_same (create m a args b f) a args.owner p ≡ false
      → share_conflict args.access args.deny ((create m a args b f).opens.recs p) ≡ false
  created-excludes p hp lp ne =
      let e = n p hp in
      rw (create-rec m a args b f p e) (
        k.others p hp (sym (create-dead m a args b f p e) ∙ lp)
          (sym (create-same m a args b f a args.owner p e) ∙ ne))

  -- It has the owner of the arguments.
  created-is_same :
      (p : ℕ)
      → let m1 = create m a args b f in
        let x = m1.opens.recs m.opens.next_rec in
        is_same m1 x.client x.owner p ≡ is_same m1 a args.owner p
  created-is_same p =
      let m1 = create m a args b f in
      ap (λ (x : StateRec). is_same m1 x.client x.owner p) (create-new m a args b f)

  created-other :
      (p : ℕ)
      → has p f.opens ≡ true
      → is_dead (create m a args b f) p ≡ false
      → is_same
          (create m a args b f)
          ((create m a args b f).opens.recs m.opens.next_rec).client
          ((create m a args b f).opens.recs m.opens.next_rec).owner
          p
        ≡ false
      → excludes (create m a args b f) m.opens.next_rec p ≡ false
  created-other p hp lp ne =
      ap (λ (x : StateRec). share_conflict x.access x.deny ((create m a args b f).opens.recs p))
        (create-new m a args b f)
      ∙ created-excludes p hp lp (sym (created-is_same p) ∙ ne)

  pub create-IsExclusive : IsExclusive (create m a args b f) (f.opens ++ m.opens.next_rec ∷ [])
  create-IsExclusive o p ho hp lo lp ne =
      let r = m.opens.next_rec in
      let m1 = create m a args b f in
      let in_o = sym (has_last o r f.opens) ∙ ho in
      let in_p = sym (has_last p r f.opens) ∙ hp in
      elim (Bool-cases (has o f.opens)) [
        | inl q ↦ elim (Bool-cases (has p f.opens)) [
          | inl s ↦
              let e = n o q in
              let e' = n p s in
              let at_o = create-rec m a args b f o e in
              let at_p = create-rec m a args b f p e' in
              rw (at_o, at_p)
                (c o p q s (sym (create-dead m a args b f o e) ∙ lo)
                  (sym (create-dead m a args b f p e') ∙ lp)
                  (sym (create-same m a args b f _ _ o e) ∙ rw at_p at ne))
          | inr s ↦
              let p_new : r ≡ p = (==_iff r p).0 (ground arith) in
              share_conflict_comm _ _ (m1.opens.recs o) _ refl refl
              ∙ subst (λ x. excludes m1 x o ≡ false) p_new
                  (created-other o q lo (
                    subst
                      (λ x. is_same m1 (m1.opens.recs x).client (m1.opens.recs x).owner o ≡ false)
                      (sym p_new) ne))
        ]
        | inr q ↦
            let o_new : r ≡ o = (==_iff r o).0 (ground arith) in
            let other =
              subst (λ x. is_same m1 (m1.opens.recs x).client (m1.opens.recs x).owner p ≡ false)
                (sym o_new) (is_same_comm m1 o p ne) in
            elim (Bool-cases (has p f.opens)) [
              | inl s ↦ subst (λ x. excludes m1 x p ≡ false) o_new (created-other p s lp other)
              | inr s ↦
                  let p_new : r ≡ p = (==_iff r p).0 (ground arith) in
                  absurd (
                    same_not m1 r (
                      subst
                        (λ x. is_same m1 (m1.opens.recs r).client (m1.opens.recs r).owner x ≡ false)
                        (sym p_new) other))
            ]
      ]
