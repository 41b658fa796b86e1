-- ===== src/Opens/Recalled.antt =====
-- Recalls of delegations in src/state/state_mgr.cpp leave the share reservations alone.
use lightnfs.Prelude.{
  ℕ, ◌+◌, ◌≡◌, refl, sym, ◌∙◌, Bool, true, false, List, [], ◌∷◌, ◌==◌, ==_iff, if◌then◌else◌,
  Bool-cases, inl, inr,
}
use lightnfs.Maps.{bytes, number}
use lightnfs.Sessions.Types.{StateMgr}
use lightnfs.Opens.Types.{StateRec, file}
use lightnfs.Opens.Unlink.{write_rec, each}
use lightnfs.Opens.Open.{share_conflict, is_dead, is_same, start_recall}
use lightnfs.Opens.Exclusive.{excludes, IsExclusive}

-- What a recall leaves of the states.
pub record Recalled (m n : StateMgr) : Type 0 where
  clients : n.clients ≡ m.clients
  pub files : n.opens.files ≡ m.opens.files
  closed : (i : ℕ) → (n.opens.recs i).closed ≡ (m.opens.recs i).closed
  client : (i : ℕ) → (n.opens.recs i).client ≡ (m.opens.recs i).client
  owner : (i : ℕ) → (n.opens.recs i).owner ≡ (m.opens.recs i).owner
  access : (i : ℕ) → (n.opens.recs i).access ≡ (m.opens.recs i).access
  deny : (i : ℕ) → (n.opens.recs i).deny ≡ (m.opens.recs i).deny

Recalled-refl : (m : StateMgr) → Recalled m m
Recalled-refl m = record {
  clients = refl;
  files = refl;
  closed = λ i. refl;
  client = λ i. refl;
  owner = λ i. refl;
  access = λ i. refl;
  deny = λ i. refl;
}

written :
    {A : Type 0} (m : StateMgr) (d : ℕ) (rec : StateRec) (g : StateRec → A)
    → g rec ≡ g (m.opens.recs d)
    → (i : ℕ) → g ((write_rec m d rec).opens.recs i) ≡ g (m.opens.recs i)
written m d rec g h i = elim (Bool-cases (i == d)) [
  | inl q ↦ rw q (rw ((==_iff i d).0 q) h)
  | inr q ↦ rw q
]

if-Recalled :
    {m x y : StateMgr} (b : Bool) → Recalled m x → Recalled m y → Recalled m (if b then x else y)
if-Recalled true h k = h
if-Recalled false h k = k

start_recall-Recalled : (now : ℕ) (m : StateMgr) (d : ℕ) → Recalled m (start_recall now m d)
unfolding start_recall
start_recall-Recalled now m d =
    let rec = record (m.opens.recs d) {
      recalled = true;
      recall_deadline = now + m.cfg.lease_seconds;
    } in
    if-Recalled (m.opens.recs d).recalled (Recalled-refl m) (record {
      clients = refl;
      files = refl;
      closed = written m d rec (λ x. x.closed) refl;
      client = written m d rec (λ x. x.client) refl;
      owner = written m d rec (λ x. x.owner) refl;
      access = written m d rec (λ x. x.access) refl;
      deny = written m d rec (λ x. x.deny) refl;
    })

Recalled-trans : {m n o : StateMgr} → Recalled m n → Recalled n o → Recalled m o
Recalled-trans p q = record {
  clients = q.clients ∙ p.clients;
  files = q.files ∙ p.files;
  closed = λ i. q.closed i ∙ p.closed i;
  client = λ i. q.client i ∙ p.client i;
  owner = λ i. q.owner i ∙ p.owner i;
  access = λ i. q.access i ∙ p.access i;
  deny = λ i. q.deny i ∙ p.deny i;
}

pub recalls-Recalled :
    (now : ℕ) (ds : List ℕ) (m : StateMgr) → Recalled m (each (start_recall now) m ds)
recalls-Recalled now [] m = Recalled-refl m
recalls-Recalled now (d ∷ ds) m =
    Recalled-trans (start_recall-Recalled now m d) (recalls-Recalled now ds (start_recall now m d))

-- So it keeps the opens apart.
Recalled-dead : {m n : StateMgr} → Recalled m n → (o : ℕ) → is_dead n o ≡ is_dead m o
unfolding is_dead
Recalled-dead h o = rw (h.closed o, h.client o, h.clients)

Recalled-same :
    {m n : StateMgr}
    → Recalled m n
    → (o p : ℕ)
    → is_same n (n.opens.recs p).client (n.opens.recs p).owner o
      ≡ is_same m (m.opens.recs p).client (m.opens.recs p).owner o
unfolding is_same
Recalled-same h o p = rw (h.client o, h.client p, h.owner o, h.owner p)

Recalled-excludes : {m n : StateMgr} → Recalled m n → (o p : ℕ) → excludes n o p ≡ excludes m o p
unfolding share_conflict
Recalled-excludes h o p = rw (h.access o, h.access p, h.deny o, h.deny p)

pub Recalled-IsExclusive :
    {m n : StateMgr} (os : List ℕ) → Recalled m n → IsExclusive m os → IsExclusive n os
Recalled-IsExclusive os h c o p ho hp lo lp ne =
    Recalled-excludes h o p
    ∙ c o p ho hp (sym (Recalled-dead h o) ∙ lo) (sym (Recalled-dead h p) ∙ lp)
        (sym (Recalled-same h o p) ∙ ne)
