-- ===== src/Tests/Lock.antt =====
-- Passes of `cleanup` and commands at one lock file.
use native.Mathlib.Decide.{ℕ_discrete}
use newgit.Prelude.{ℕ, ◌≡◌, refl, true, false, none, some, [], ◌∷◌, list_eq, nat_eq, arith}
use newgit.Lock.{
  Locks, idle, opened, taken, holding, pruning, prune_taken, removed, update, move, unlocked, Step,
  open_old, open_new, take_lock, hold, prune_open, prune_take, prune_remove, prune_close, Steps,
  ended, onward,
}
use newgit.Lock.Excludes.{holding-exclusive}
use newgit.Lock.Env.{parse_entries, split_colon, join_commas, locked_env_value, held_by_ancestor}
use newgit.Text.{bytes, split_on, trim_blank_end, trim_blank_start, parse_u32}

abbrev start : Locks
start = unlocked (some 0) 1

abbrev after_1 : Locks
after_1 = move start 0 (pruning 0)

step_1 : Step false start after_1
unfolding nat_eq ℕ_discrete
step_1 = prune_open start 0 0 refl refl (λ h. cc)

abbrev after_2 : Locks
after_2 = move after_1 1 (pruning 0)

step_2 : Step false after_1 after_2
unfolding nat_eq ℕ_discrete
step_2 = prune_open after_1 1 0 refl refl (λ h. cc)

abbrev after_3 : Locks
after_3 = move after_2 1 (prune_taken 0)

step_3 : Step false after_2 after_3
unfolding nat_eq ℕ_discrete
step_3 = prune_take after_2 1 0 refl (λ q. ground arith)

abbrev after_4 : Locks
after_4 = record {
  at_path = none;
  fresh = after_3.fresh;
  phase = update after_3.phase 1 (removed 0);
}

step_4 : Step false after_3 after_4
unfolding nat_eq ℕ_discrete
step_4 = prune_remove after_3 1 0 refl

abbrev after_5 : Locks
after_5 = move after_4 1 idle

step_5 : Step false after_4 after_5
unfolding nat_eq ℕ_discrete
step_5 = prune_close after_4 1 0 refl

abbrev after_6 : Locks
after_6 = record { at_path = some 1; fresh = 2; phase = update after_5.phase 2 (opened 1) }

step_6 : Step false after_5 after_6
unfolding nat_eq ℕ_discrete
step_6 = open_new after_5 2 refl refl

abbrev after_7 : Locks
after_7 = move after_6 2 (taken 1)

step_7 : Step false after_6 after_7
unfolding nat_eq ℕ_discrete
step_7 = take_lock after_6 2 1 refl (λ q. ground arith)

abbrev after_8 : Locks
after_8 = move after_7 2 (holding 1)

step_8 : Step false after_7 after_8
unfolding nat_eq ℕ_discrete
step_8 = hold after_7 2 1 refl refl

abbrev after_9 : Locks
after_9 = move after_8 0 (prune_taken 0)

step_9 : Step false after_8 after_9
unfolding nat_eq ℕ_discrete
step_9 = prune_take after_8 0 0 refl (λ q. ground arith)

abbrev after_10 : Locks
after_10 = record {
  at_path = none;
  fresh = after_9.fresh;
  phase = update after_9.phase 0 (removed 0);
}

step_10 : Step false after_9 after_10
unfolding nat_eq ℕ_discrete
step_10 = prune_remove after_9 0 0 refl

abbrev after_11 : Locks
after_11 = record { at_path = some 2; fresh = 3; phase = update after_10.phase 3 (opened 2) }

step_11 : Step false after_10 after_11
unfolding nat_eq ℕ_discrete
step_11 = open_new after_10 3 refl refl

abbrev after_12 : Locks
after_12 = move after_11 3 (taken 2)

step_12 : Step false after_11 after_12
unfolding nat_eq ℕ_discrete
step_12 = take_lock after_11 3 2 refl (λ q. ground arith)

abbrev after_13 : Locks
after_13 = move after_12 3 (holding 2)

step_13 : Step false after_12 after_13
unfolding nat_eq ℕ_discrete
step_13 = hold after_12 3 2 refl refl

-- Two passes at once let two commands hold the lock: the first pass opens the file, the second removes it, a command
-- makes a new file and holds its lock, and the first pass then removes that one.
two_hold :
    Steps false start after_13 × (after_13.phase 2 ≡ holding 1) × (after_13.phase 3 ≡ holding 2)
unfolding nat_eq ℕ_discrete
two_hold = (
  (onward start after_12 after_13
      (onward start after_11 after_12
        (onward start after_10 after_11
          (onward start after_9 after_10
            (onward start after_8 after_9
              (onward start after_7 after_8
                (onward start after_6 after_7
                  (onward start after_5 after_6
                    (onward start after_4 after_5
                      (onward start after_3 after_4
                        (onward start after_2 after_3
                          (onward start after_1 after_2
                            (onward start start after_1 (ended start) step_1) step_2)
                          step_3)
                        step_4)
                      step_5)
                    step_6)
                  step_7)
                step_8)
              step_9)
            step_10)
          step_11)
        step_12)
      step_13),
  refl,
  refl,
)

-- One command alone takes the lock of the file that was left.
abbrev one_opened : Locks
one_opened = move start 5 (opened 0)

abbrev one_taken : Locks
one_taken = move one_opened 5 (taken 0)

abbrev one_holds : Locks
one_holds = move one_taken 5 (holding 0)

one_run : Steps true start one_holds
unfolding nat_eq ℕ_discrete
one_run =
    onward start one_taken one_holds
      (onward start one_opened one_taken
        (onward start start one_opened (ended start) (open_old start 5 0 refl refl))
        (take_lock one_opened 5 0 refl (λ q. ground arith)))
      (hold one_taken 5 0 refl refl)

abbrev command : ℕ
command = 5

holding-exclusive_example : command ≡ command
unfolding nat_eq ℕ_discrete
holding-exclusive_example =
    holding-exclusive (some 0) 1 one_holds command command 0 0 one_run refl refl

-- An inherited entry of the same instance is replaced.
env_value :
    locked_env_value (bytes "a:1.2.3,b:4.5.6") ((bytes "b", bytes "7.8.9") ∷ [])
    ≡ bytes "a:1.2.3,b:7.8.9"
unfolding locked_env_value join_commas parse_entries split_colon split_on trim_blank_end
    trim_blank_start nat_eq list_eq ℕ_discrete
env_value = refl

ancestor :
    held_by_ancestor (some (bytes "a:1.2.3,b:4.5.6")) (some (bytes "4.5.6")) (bytes "b") ≡ some 4
unfolding held_by_ancestor parse_entries split_colon split_on trim_blank_end trim_blank_start
    parse_u32 nat_eq list_eq ℕ_discrete
ancestor = refl

no_ancestor : held_by_ancestor (some (bytes "a:1.2.3")) (some (bytes "4.5.6")) (bytes "a") ≡ none
unfolding held_by_ancestor parse_entries split_colon split_on trim_blank_end trim_blank_start
    parse_u32 nat_eq list_eq ℕ_discrete
no_ancestor = refl
