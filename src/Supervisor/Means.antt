-- ===== src/Supervisor/Means.antt =====
-- crates/newgit-core/src/supervisor.rs: whether the sweeps of one `stop` reach the processes one by one or the group
-- as a whole.
use newgit.Prelude.{
  ℕ, suc, ◌≡◌, refl, ap, ◌∙◌, ◌⊎◌, inl, inr, Bool, true, false, none, some, List, [], ◌∷◌, any,
  any-append, if◌then◌else◌, arith, nat_eq,
}
use newgit.Error.{Result, ok}
use newgit.Supervisor.Sweeps.{
  Sent, to_process, to_group, Signalled, nothing_signalled, Listing, left_alone, signal_one, sweep,
  is_first, sweep_listing, signal_group,
}

abbrev pub is_group : Sent → Bool
is_group (to_process pid) = false
is_group to_group = true

module _ (listing : ℕ → Listing) where
  -- The group is listed at first, and is not at a later sweep.
  abbrev pub ListingLost : Type 0
  ListingLost =
      (time : ℕ) × (members : List (ℕ × ℕ)) × (listing 0 ≡ some members)
      × (listing (suc time) ≡ none)

  -- The signals go to processes alone, or to the group alone and once, or the listing of the group is lost.
  abbrev pub Means : List Sent → Type 0
  Means sent = (any is_group sent ≡ false) ⊎ ((sent ≡ to_group ∷ []) ⊎ ListingLost)

  -- The same, with what the next sweep goes by.
  abbrev pub MeansSoFar : Signalled → Type 0
  MeansSoFar s =
      ((members : List (ℕ × ℕ)) × (listing 0 ≡ some members) × (any is_group s.sent ≡ false))
      ⊎ (((s.whole_group ≡ true) × (s.sent ≡ to_group ∷ [])) ⊎ ListingLost)

sweep-is_group :
    (first : Bool) (members rest : List (ℕ × ℕ)) (s : Signalled)
    → any is_group s.sent ≡ false
    → any is_group ((sweep first members rest s).sent) ≡ false
unfolding sweep
sweep-is_group first members [] s h = h
sweep-is_group first members ((member, parent) ∷ rest) s h =
    sweep-is_group first members rest
      (if left_alone first members member parent s then s else signal_one member s)
      (split (left_alone first members member parent s))
  where
    split : (b : Bool) → any is_group ((if b then s else signal_one member s).sent) ≡ false
    split true = h
    split false = any-append is_group s.sent (to_process member ∷ []) ∙ ground (arith, h)

signal_group-listed :
    (members : List (ℕ × ℕ)) (answer : Result (Unit {0})) (s : Signalled)
    → any is_group s.sent ≡ false
    → any is_group ((signal_group (some members) answer s).0.sent) ≡ false
unfolding signal_group
signal_group-listed members answer s h = split s.whole_group
  where
    split :
        (b : Bool)
        → any is_group ((if b then (s, ok tt) else sweep_listing (some members) answer s).0.sent)
          ≡ false
    split true = h
    split false = sweep-is_group (is_first s.pids) members members s h

signal_group-whole :
    (l : Listing) (answer : Result (Unit {0})) (s : Signalled)
    → s.whole_group ≡ true
    → (signal_group l answer s).0 ≡ s
unfolding signal_group
signal_group-whole l answer s h = ap (λ b. (if b then (s, ok tt) else sweep_listing l answer s).0) h

pub first_sweep-MeansSoFar :
    (listing : ℕ → Listing) (answer : Result (Unit {0}))
    → MeansSoFar listing (signal_group (listing 0) answer nothing_signalled).0
unfolding signal_group
first_sweep-MeansSoFar listing answer = split (listing 0) refl
  where
    split :
        (l : Listing)
        → listing 0 ≡ l
        → MeansSoFar listing (signal_group l answer nothing_signalled).0
    split none e = inr (inl (refl, refl))
    split (some members) e =
        inl (members, e, signal_group-listed members answer nothing_signalled refl)

pub signal_group-MeansSoFar :
    (listing : ℕ → Listing) (answer : Result (Unit {0})) (time : ℕ) (s : Signalled)
    → MeansSoFar listing s
    → MeansSoFar listing (signal_group (listing (suc time)) answer s).0
signal_group-MeansSoFar listing answer time s (inl (members, first, h)) =
    split (listing (suc time)) refl
  where
    split : (l : Listing) → listing (suc time) ≡ l → MeansSoFar listing (signal_group l answer s).0
    split none e = inr (inr (time, members, first, e))
    split (some others) e = inl (members, first, signal_group-listed others answer s h)
signal_group-MeansSoFar listing answer time s (inr (inl (w, h))) =
    let same = signal_group-whole (listing (suc time)) answer s w in
    inr (inl (ap (λ x. x.whole_group) same ∙ w, ap (λ x. x.sent) same ∙ h))
signal_group-MeansSoFar listing answer time s (inr (inr lost)) = inr (inr lost)

pub MeansSoFar-Means :
    (listing : ℕ → Listing) (s : Signalled) → MeansSoFar listing s → Means listing s.sent
MeansSoFar-Means listing s (inl (members, first, h)) = inl h
MeansSoFar-Means listing s (inr (inl (w, h))) = inr (inl h)
MeansSoFar-Means listing s (inr (inr lost)) = inr (inr lost)
