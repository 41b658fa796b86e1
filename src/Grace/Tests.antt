-- ===== src/Grace/Tests.antt =====
-- The windows of grace on concrete calls.
use lightnfs.Prelude.{ℕ, ◌+◌, ◌*◌, ◌≤◌, ◌^◌, ◌≡◌, refl, true, false, List, [], ◌∷◌, arith, bytes_eq}
use lightnfs.Maps.{has}
use lightnfs.Config.{Config}
use lightnfs.Grace.Windows.{
  Grace, no_grace, grace_time, arm_grace, end_grace, in_grace, in_any_grace,
}
use lightnfs.Grace.Periods.{Call, arm, reclaimed, end, ask, remaining, is_listed}
use lightnfs.Grace.Refines.{answers, promised, AllFit, IsTimed, answers-promised}
use lightnfs.Grace.Ends.{
  IsArmedBy, run, run-in_grace, all_reclaimed, AllCover, all_reclaimed-in_grace,
}

abbrev a_config : Config
a_config = record {
  boot_epoch = 1;
  lease_seconds = 90;
  grace_seconds = 0;
  courtesy_multiplier = 24;
  max_slots = 32;
  max_cached_reply = 8192;
  max_ops = 64;
  max_io = 1048576;
  max_clients = 4096;
  max_states_per_client = 65536;
  per_fsid_reclaim = true;
}

abbrev first_owner : List ℕ
first_owner = 1 ∷ []

abbrev second_owner : List ℕ
second_owner = 2 ∷ []

-- Two owners are listed for the file system 7, one of them reclaims, and the operator ends grace.
abbrev calls : List (ℕ × Call)
calls =
    (5, arm 7 (first_owner ∷ second_owner ∷ []))
    ∷ (6, ask 7)
    ∷ (7, reclaimed first_owner)
    ∷ (8, is_listed 7 first_owner)
    ∷ (9, remaining 7)
    ∷ (10, ask 8)
    ∷ (11, end 7)
    ∷ []

calls-IsTimed : IsTimed 0 calls
calls-IsTimed = (
  ground arith,
  (
    ground arith,
    (ground arith, (ground arith, (ground arith, (ground arith, (ground arith, tt))))),
  ),
)

answers-promised_example : AllFit (promised a_config calls []) (answers a_config calls no_grace)
answers-promised_example = answers-promised a_config calls calls-IsTimed

calls-IsArmedBy : IsArmedBy 5 calls
calls-IsArmedBy = (ground arith, tt)

grace_time-done : 5 + grace_time a_config ≤ 100 * 10 ^ 9
unfolding grace_time
grace_time-done = ground arith

run-in_grace_example :
    ((in_grace (100 * 10 ^ 9) 7 (run a_config calls no_grace)).0 ≡ false)
    × ((in_any_grace (100 * 10 ^ 9) (run a_config calls no_grace)).0 ≡ false)
run-in_grace_example =
    run-in_grace a_config calls 5 (100 * 10 ^ 9) 7 calls-IsArmedBy grace_time-done

abbrev armed : Grace
armed = arm_grace a_config 7 (first_owner ∷ second_owner ∷ []) 5 no_grace

-- An end long after the deadline, with no look before it, says that grace was on.
late_end : (end_grace 7 armed).0 ≡ true
unfolding end_grace arm_grace bytes_eq
late_end = refl

late_look : (in_grace (100 * 10 ^ 9) 7 armed).0 ≡ false
unfolding in_grace arm_grace bytes_eq
late_look = refl

-- The window is live at first.
armed-in_grace : (in_grace 10 7 armed).0 ≡ true
unfolding arm_grace in_grace bytes_eq
armed-in_grace = refl

armed-AllCover : AllCover (second_owner ∷ first_owner ∷ []) armed.windows
unfolding arm_grace has
armed-AllCover = ((λ o h. ground arith), tt)

all_reclaimed-in_grace_example :
    (in_grace 10 7 (all_reclaimed (second_owner ∷ first_owner ∷ []) armed)).0 ≡ false
all_reclaimed-in_grace_example =
    all_reclaimed-in_grace (second_owner ∷ first_owner ∷ []) armed 10 7 armed-AllCover
