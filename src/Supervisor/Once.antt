-- ===== src/Supervisor/Once.antt =====
-- crates/newgit-core/src/supervisor.rs: what the sweeps of one `stop` record of what they send.
use newgit.Prelude.{
  ℕ, ◌≡◌, refl, sym, ◌∙◌, Bool, true, false, none, some, List, [], ◌∷◌, ◌++◌, ◌==◌, nat_eq,
  if◌then◌else◌, arith, contains, any-append, In, inl, inr, In-append_cases, In-append_left,
  In-append_right, Bool-cases, ap,
}
use newgit.Error.{Result, ok}
use newgit.Supervisor.Sweeps.{
  Sent, to_process, to_group, Signalled, Listing, left_alone, signal_one, sweep, is_first,
  signal_whole, sweep_listing, signal_group,
}

-- No item twice.
abbrev pub Once : List Sent → Type 0
Once [] = Unit {0}
Once (x ∷ xs) = (In x xs → ⊥) × Once xs

Once-append : (x : Sent) (xs : List Sent) → Once xs → (In x xs → ⊥) → Once (xs ++ x ∷ [])
Once-append x [] o n = ((λ m. m), tt)
Once-append x (y ∷ xs) o n = (
  (λ m. elim (In-append_cases y xs (x ∷ []) m) [
    | inl i ↦ o.0 i
    | inr i ↦ elim i [ inl e ↦ n (inl (sym e)) | inr i ↦ i ]
  ]),
  Once-append x xs o.1 (λ m. n (inr m)),
)

-- What was sent is what is recorded.
pub record IsRecorded (s : Signalled) : Type 0 where
  pub once : Once s.sent
  pub known : (pid : ℕ) → In (to_process pid) s.sent → contains s.pids pid ≡ true
  pub told : (pid : ℕ) → contains s.pids pid ≡ true → In (to_process pid) s.sent
  pub whole : In to_group s.sent → s.whole_group ≡ true

signal_one-IsRecorded :
    (member : ℕ) (s : Signalled)
    → contains s.pids member ≡ false
    → IsRecorded s
    → IsRecorded (signal_one member s)
signal_one-IsRecorded member s absent v = record {
  once = Once-append (to_process member) s.sent v.once (λ m. cc (v.known member m));
  known = λ pid m.
      any-append (λ x. x == pid) s.pids (member ∷ [])
      ∙ (elim (In-append_cases (to_process pid) s.sent (to_process member ∷ []) m) [
        | inl i ↦ ground (arith, v.known pid i)
        | inr i ↦ elim i [ inl e ↦ ground (arith, e) | inr i ↦ absurd i ]
      ]);
  told = λ pid h. elim (Bool-cases (member == pid)) [
    | inl e ↦
        In-append_right (to_process pid) s.sent (to_process member ∷ [])
          (inl (ap to_process (ground (arith, e))))
    | inr e ↦
        let before : contains s.pids pid ≡ true =
          ground (arith, e, h, any-append (λ x. x == pid) s.pids (member ∷ [])) in
        In-append_left (to_process pid) s.sent (to_process member ∷ []) (v.told pid before)
  ];
  whole = λ m. elim (In-append_cases to_group s.sent (to_process member ∷ []) m) [
    | inl i ↦ v.whole i
    | inr i ↦ elim i [ inl e ↦ cc | inr i ↦ absurd i ]
  ];
}

sweep-IsRecorded :
    (first : Bool) (members rest : List (ℕ × ℕ)) (s : Signalled)
    → IsRecorded s
    → IsRecorded (sweep first members rest s)
unfolding sweep
sweep-IsRecorded first members [] s v = v
sweep-IsRecorded first members ((member, parent) ∷ rest) s v =
    sweep-IsRecorded first members rest
      (if left_alone first members member parent s then s else signal_one member s)
      (split (left_alone first members member parent s) refl)
  where
    split :
        (b : Bool)
        → left_alone first members member parent s ≡ b
        → IsRecorded (if b then s else signal_one member s)
    split true e = v
    split false e = signal_one-IsRecorded member s (ground (arith, e)) v

whole-IsRecorded :
    (s : Signalled) → s.whole_group ≡ false → IsRecorded s → IsRecorded (signal_whole s)
whole-IsRecorded s e v = record {
  once = Once-append to_group s.sent v.once (λ m. cc (v.whole m));
  known = λ pid m. elim (In-append_cases (to_process pid) s.sent (to_group ∷ []) m) [
    | inl i ↦ v.known pid i
    | inr i ↦ elim i [ inl e ↦ cc | inr i ↦ absurd i ]
  ];
  told = λ pid h. In-append_left (to_process pid) s.sent (to_group ∷ []) (v.told pid h);
  whole = λ m. refl;
}

pub signal_group-IsRecorded :
    (listing : Listing) (answer : Result (Unit {0})) (s : Signalled)
    → IsRecorded s
    → IsRecorded (signal_group listing answer s).0
unfolding signal_group
signal_group-IsRecorded listing answer s v = split s.whole_group refl listing
  where
    split :
        (b : Bool)
        → s.whole_group ≡ b
        → (listing : Listing)
        → IsRecorded (if b then (s, ok tt) else sweep_listing listing answer s).0
    split true e listing = v
    split false e none = whole-IsRecorded s e v
    split false e (some members) = sweep-IsRecorded (is_first s.pids) members members s v
