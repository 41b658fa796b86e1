-- ===== src/Opens/Rounds.antt =====
-- A round of OPEN in src/state/state_mgr.cpp, and the share reservations of its file.
use mathlib.Core.Path.{subst}
use lightnfs.Prelude.{
  ℕ, ◌≡◌, refl, sym, ap, ◌∙◌, Bool, true, false, not, Option, none, some, List, [], ◌∷◌, ◌++◌, ◌==◌,
  if◌then◌else◌, arith,
}
use lightnfs.Maps.{bytes, number, find, put, erase, has, find-put, find-erase}
use lightnfs.Grace.Windows.{is_nil}
use lightnfs.Locks.Types.{FileKey, key_eq_refl}
use lightnfs.Sessions.Types.{StateMgr}
use lightnfs.Opens.Types.{FileStateRec, file}
use lightnfs.Opens.Unlink.{is_unused}
use lightnfs.Opens.Open.{
  OpenArgs, Arbitration, Round, is_dead, is_same, arbitrate, merge, create, args_key, put_file,
  erase_file, file_or_new, granted, open_round, open_turn, recalls_of, settle, start_reclaim,
  deny_share, recall_all,
}
use lightnfs.Opens.Exclusive.{opens_of, IsExclusive, IsClear, arbitrate-IsClear, merge-IsExclusive}
use lightnfs.Opens.Created.{IsNew, create-IsExclusive}
use lightnfs.Opens.Recalled.{recalls-Recalled, Recalled-IsExclusive}

-- The opens of the file after the steps of a round.
opens_of-put :
    (n : StateMgr) (args : OpenArgs) (f : FileStateRec) (files : List (FileKey × FileStateRec))
    → n.opens.files ≡ put (args_key args) f files
    → opens_of n args ≡ f.opens
opens_of-put n args f files h =
    let k = args_key args in
    let there : find k (put k f files) ≡ some f = find-put k k f files ∙ rw (key_eq_refl k) in
    ap (λ l. (file_or_new (find k l)).opens) h ∙ ap (λ o. (file_or_new o).opens) there

opens_of-erase :
    (n : StateMgr) (args : OpenArgs) (files : List (FileKey × FileStateRec))
    → n.opens.files ≡ erase (args_key args) files
    → opens_of n args ≡ []
opens_of-erase n args files h =
    let k = args_key args in
    let gone : find k (erase k files) ≡ none = find-erase k k files ∙ rw (key_eq_refl k) in
    ap (λ l. (file_or_new (find k l)).opens) h ∙ ap (λ o. (file_or_new o).opens) gone

none_has : (o : ℕ) → has o [] ≡ true → ⊥
unfolding has
none_has o h = cc

IsExclusive-none : (m : StateMgr) (os : List ℕ) → os ≡ [] → IsExclusive m os
IsExclusive-none m os e o p ho hp lo lp ne = absurd (none_has o (rw e at ho))

create-opens :
    (m : StateMgr) (a : ℕ) (args : OpenArgs) (b : Option ℕ) (f : FileStateRec)
    → opens_of (create m a args b f) args ≡ f.opens ++ m.opens.next_rec ∷ []
unfolding create
create-opens m a args b f =
    opens_of-put (create m a args b f) args (record f { opens = f.opens ++ m.opens.next_rec ∷ [] })
      m.opens.files refl

merge-opens :
    (m : StateMgr) (args : OpenArgs) (r : ℕ) → opens_of (merge m r args) args ≡ opens_of m args
unfolding merge
merge-opens m args r = refl

-- The file's opens are exclusive.
abbrev IsKept : StateMgr → OpenArgs → Type 0
IsKept n args = IsExclusive n (opens_of n args)

pair_if-IsKept :
    (args : OpenArgs) (b : Bool) (x y : Round × StateMgr)
    → (b ≡ true → IsKept x.1 args)
    → (b ≡ false → IsKept y.1 args)
    → IsKept (if b then x else y).1 args
pair_if-IsKept args true x y h k = h refl
pair_if-IsKept args false x y h k = k refl

if-IsKept :
    (args : OpenArgs) (b : Bool) (x y : StateMgr)
    → IsKept x args
    → IsKept y args
    → IsKept (if b then x else y) args
if-IsKept args true x y h k = h
if-IsKept args false x y h k = k

granted-IsKept :
    (m : StateMgr) (a : ℕ) (args : OpenArgs) (b : Option ℕ) (f : FileStateRec) (mine : Option ℕ)
    → opens_of m args ≡ f.opens
    → IsExclusive m f.opens
    → IsNew m f.opens
    → IsClear m a args f.opens none mine
    → IsKept (granted m a args b f mine).1 args
granted-IsKept m a args b f none e c n k =
    subst (IsExclusive (create m a args b f)) (sym (create-opens m a args b f))
      (create-IsExclusive m a args b f c k n)
granted-IsKept m a args b f (some r) e c n k =
    subst (IsExclusive (merge m r args)) (sym (merge-opens m args r ∙ e))
      (merge-IsExclusive m a args f.opens r c k)

erase_file-IsKept : (m : StateMgr) (args : OpenArgs) → IsKept (erase_file m (args_key args)) args
erase_file-IsKept m args =
    IsExclusive-none (erase_file m (args_key args)) (opens_of (erase_file m (args_key args)) args)
      (opens_of-erase (erase_file m (args_key args)) args m.opens.files refl)

-- What an arbitration that neither denies nor meets a client in courtesy has seen.
abbrev Granting : StateMgr → ℕ → OpenArgs → List ℕ → Arbitration → Type 0
Granting m a args os v = v.denied ≡ false → v.courtesy ≡ 0 → IsClear m a args os none v.mine

no_courtesy : (n : ℕ) → not (n == 0) ≡ false → n ≡ 0
no_courtesy n h = ground arith

settle-IsKept :
    (m : StateMgr) (a : ℕ) (args : OpenArgs) (b : Option ℕ) (f : FileStateRec) (v : Arbitration)
    → opens_of m args ≡ f.opens
    → IsExclusive m f.opens
    → IsNew m f.opens
    → Granting m a args f.opens v
    → IsKept (settle m a args b f v).1 args
unfolding is_dead is_same
settle-IsKept m a args b f v e c n k =
    let kept : IsKept m args = subst (IsExclusive m) (sym e) c in
    let key = args_key args in
    pair_if-IsKept args (not (v.courtesy == 0)) (start_reclaim m key f v.courtesy) _
      (λ q. if-IsKept args (is_nil f.opens) (erase_file m key) m (erase_file-IsKept m args) kept)
      (λ q.
        pair_if-IsKept args v.denied (deny_share m key f) (granted m a args b f v.mine)
          (λ q'. if-IsKept args (is_unused f) (erase_file m key) m (erase_file-IsKept m args) kept)
          (λ q'. granted-IsKept m a args b f v.mine e c n (k q' (no_courtesy v.courtesy q))))

recall_all-IsKept :
    (m : StateMgr) (now : ℕ) (ds : List ℕ) (args : OpenArgs)
    → IsKept m args
    → IsKept (recall_all m now ds).1 args
recall_all-IsKept m now ds args c =
    let r = recalls-Recalled now ds m in
    let same : opens_of (recall_all m now ds).1 args ≡ opens_of m args =
      ap (λ l. (file_or_new (find (args_key args) l)).opens) r.files in
    subst (IsExclusive (recall_all m now ds).1) (sym same)
      (Recalled-IsExclusive (opens_of m args) r c)

open_round-IsKept :
    (m : StateMgr) (a : ℕ) (args : OpenArgs) (b : Option ℕ) (now : ℕ) (f : FileStateRec)
    (v : Arbitration)
    → opens_of m args ≡ f.opens
    → IsExclusive m f.opens
    → IsNew m f.opens
    → Granting m a args f.opens v
    → IsKept (open_round m a args b now f v).1 args
unfolding open_round
open_round-IsKept m a args b now f v e c n k =
    let recalls = recalls_of m args f v in
    pair_if-IsKept args (is_nil recalls) (settle m a args b f v) (recall_all m now recalls)
      (λ q. settle-IsKept m a args b f v e c n k)
      (λ q. recall_all-IsKept m now recalls args (subst (IsExclusive m) (sym e) c))

-- OPEN keeps share reservations. In a round of `open`, if of the opens of the file no two that live and
-- have different owners exclude one another, then none do afterwards, whatever the round comes to. The
-- next state record is not among the opens, and no client that has one of them has the id 0.
pub open_turn-IsExclusive :
    (m : StateMgr) (a : ℕ) (args : OpenArgs) (bopen : Option ℕ) (now : ℕ)
    → IsExclusive m (opens_of m args)
    → IsNew m (opens_of m args)
    → ((o : ℕ)
        → has o (opens_of m args) ≡ true
        → ((m.clients (m.opens.recs o).client).clientid == 0) ≡ false)
    → IsExclusive (open_turn m a args bopen now).1 (opens_of (open_turn m a args bopen now).1 args)
unfolding open_turn
open_turn-IsExclusive m a args bopen now c n z =
    let f = file_or_new (find (args_key args) m.opens.files) in
    let m' = put_file m (args_key args) f in
    open_round-IsKept m' a args bopen now f (arbitrate m' a args f.opens none)
      (opens_of-put m' args f m.opens.files refl) c n (arbitrate-IsClear m' a args f.opens none z)
