-- ===== src/Lock/Excludes.antt =====
-- crates/newgit-core/src/lock.rs: two commands never hold one instance's lock, while one pass of `cleanup` at most
-- is at its file.
use newgit.Prelude.{
  ℕ, suc, ◌≡◌, ◌≢◌, ◌⊎◌, refl, sym, ap, subst, ◌∙◌, Bool, true, false, Option, none, some, ◌==◌,
  nat_eq, Bool-cases, inl, inr, arith, ==-refl,
}
use newgit.Lock.{
  Phase, idle, opened, taken, holding, pruning, prune_taken, removed, Locks, update, locks, prunes,
  Free, move, Step, open_old, open_new, refuse, take_lock, hold, start_over, release, prune_open,
  prune_busy, prune_take, prune_remove, prune_close, Steps, ended, onward, unlocked,
}

not_true : {b : Bool} → (b ≡ true → ⊥) → b ≡ false
not_true {b} h = elim (Bool-cases b) [ inl e ↦ absurd (h e) | inr e ↦ e ]

-- A process that holds the lock, and a pass that will remove the file, is at the file of the path.
abbrev pub AtPath : Option ℕ → Phase → Type 0
AtPath at_path (holding i) = at_path ≡ some i
AtPath at_path (pruning i) = at_path ≡ some i
AtPath at_path (prune_taken i) = at_path ≡ some i
AtPath at_path _ = Unit {0}

pub record IsExclusive (s : Locks) : Type 0 where
  pub one_locks : (p q i : ℕ) → locks (s.phase p) i ≡ true → locks (s.phase q) i ≡ true → p ≡ q
  pub one_prunes : (p q : ℕ) → prunes (s.phase p) ≡ true → prunes (s.phase q) ≡ true → p ≡ q
  pub at_path : (p : ℕ) → AtPath s.at_path (s.phase p)

update_cases :
    (phase : ℕ → Phase) (p : ℕ) (new : Phase) (q : ℕ)
    → ((q ≡ p) × (update phase p new q ≡ new)) ⊎ ((p ≢ q) × (update phase p new q ≡ phase q))
update_cases phase p new q = elim (Bool-cases (q == p)) [
  | inl e ↦ inl (ground (arith, e), ground (arith, e))
  | inr e ↦
      inr (λ same. differ (==-refl q) (subst (λ r. (q == r) ≡ false) same e), ground (arith, e))
]
  where
    differ : (q == q) ≡ true → (q == q) ≡ false → ⊥
    differ h k = cc

-- A step of one process, to a phase that fits with what the others do.
moved :
    (s : Locks) (p : ℕ) (new : Phase) (path : Option ℕ) (fresh : ℕ)
    → IsExclusive s
    → ((q i : ℕ) → p ≢ q → locks new i ≡ true → locks (s.phase q) i ≡ false)
    → ((q : ℕ) → p ≢ q → prunes new ≡ true → prunes (s.phase q) ≡ false)
    → AtPath path new
    → ((q : ℕ) → p ≢ q → AtPath path (s.phase q))
    → IsExclusive (record { at_path = path; fresh = fresh; phase = update s.phase p new })
moved s p new path fresh v apart alone here others = record {
  one_locks = λ a b i ha hb. elim (update_cases s.phase p new a) [
    | inl (ea, fa) ↦ elim (update_cases s.phase p new b) [
      | inl (eb, fb) ↦ ea ∙ sym eb
      | inr (nb, fb) ↦ absurd (
          clash (sym (ap (λ f. locks f i) fb) ∙ hb)
            (apart b i nb (sym (ap (λ f. locks f i) fa) ∙ ha)))
    ]
    | inr (na, fa) ↦ elim (update_cases s.phase p new b) [
      | inl (eb, fb) ↦ absurd (
          clash (sym (ap (λ f. locks f i) fa) ∙ ha)
            (apart a i na (sym (ap (λ f. locks f i) fb) ∙ hb)))
      | inr (nb, fb) ↦
          v.one_locks a b i (sym (ap (λ f. locks f i) fa) ∙ ha) (sym (ap (λ f. locks f i) fb) ∙ hb)
    ]
  ];
  one_prunes = λ a b ha hb. elim (update_cases s.phase p new a) [
    | inl (ea, fa) ↦ elim (update_cases s.phase p new b) [
      | inl (eb, fb) ↦ ea ∙ sym eb
      | inr (nb, fb) ↦
          absurd (clash (sym (ap prunes fb) ∙ hb) (alone b nb (sym (ap prunes fa) ∙ ha)))
    ]
    | inr (na, fa) ↦ elim (update_cases s.phase p new b) [
      | inl (eb, fb) ↦
          absurd (clash (sym (ap prunes fa) ∙ ha) (alone a na (sym (ap prunes fb) ∙ hb)))
      | inr (nb, fb) ↦ v.one_prunes a b (sym (ap prunes fa) ∙ ha) (sym (ap prunes fb) ∙ hb)
    ]
  ];
  at_path = λ q. elim (update_cases s.phase p new q) [
    | inl (e, f) ↦ subst (AtPath path) (sym f) here
    | inr (n, f) ↦ subst (AtPath path) (sym f) (others q n)
  ];
}
  where
    clash : {b : Bool} → b ≡ true → b ≡ false → ⊥
    clash h k = cc

-- A step that leaves the path alone, to a phase that locks nothing new and removes nothing.
module _ (s : Locks) (v : IsExclusive s) (p : ℕ) where
  -- The process keeps what it locks, or locks nothing.
  stays :
      (new : Phase)
      → ((i : ℕ) → locks new i ≡ true → locks (s.phase p) i ≡ true)
      → (prunes new ≡ true → prunes (s.phase p) ≡ true)
      → AtPath s.at_path new
      → IsExclusive (move s p new)
  stays new keeps alone here =
      moved s p new s.at_path s.fresh v
        (λ q i n h. not_true (λ k. n (v.one_locks p q i (keeps i h) k)))
        (λ q n h. not_true (λ k. n (v.one_prunes p q (alone h) k))) here (λ q n. v.at_path q)

  -- The process locks a file that is free.
  locked :
      (new : Phase) (i : ℕ)
      → Free s i
      → ((j : ℕ) → locks new j ≡ true → i ≡ j)
      → (prunes new ≡ true → prunes (s.phase p) ≡ true)
      → AtPath s.at_path new
      → IsExclusive (move s p new)
  locked new i free only alone here =
      moved s p new s.at_path s.fresh v
        (λ q j n h. subst (λ k. locks (s.phase q) k ≡ false) (only j h) (free q))
        (λ q n h. not_true (λ k. n (v.one_prunes p q (alone h) k))) here (λ q n. v.at_path q)

-- Where no file is at the path, nobody needs the one that is opened there now.
AtPath-none : (k : ℕ) (phase : Phase) → AtPath none phase → AtPath (some k) phase
AtPath-none k idle h = tt
AtPath-none k (opened i) h = tt
AtPath-none k (taken i) h = tt
AtPath-none k (holding i) h = cc
AtPath-none k (pruning i) h = cc
AtPath-none k (prune_taken i) h = cc
AtPath-none k (removed i) h = tt

some-injective : {i j : ℕ} → some i ≡ some j → i ≡ j
some-injective h = cc

-- A pass that removes the file takes it from nobody who needs it.
gone :
    (s : Locks) (v : IsExclusive s) (p q i : ℕ)
    → s.phase p ≡ prune_taken i
    → p ≢ q
    → (phase : Phase) → s.phase q ≡ phase
    → AtPath none phase
gone s v p q i e n idle f = tt
gone s v p q i e n (opened j) f = tt
gone s v p q i e n (taken j) f = tt
gone s v p q i e n (removed j) f = tt
gone s v p q i e n (pruning j) f = absurd (n (v.one_prunes p q (ap prunes e) (ap prunes f)))
gone s v p q i e n (prune_taken j) f = absurd (n (v.one_prunes p q (ap prunes e) (ap prunes f)))
gone s v p q i e n (holding j) f =
    let mine : s.at_path ≡ some i = subst (AtPath s.at_path) e (v.at_path p) in
    let theirs : s.at_path ≡ some j = subst (AtPath s.at_path) f (v.at_path q) in
    absurd (
      n (
        v.one_locks p q i (ap (λ k. locks k i) e ∙ ==-refl i) (
          ap (λ k. locks k i) f
          ∙ subst (λ k. (j == k) ≡ true) (some-injective (sym theirs ∙ mine)) (==-refl j))))

Step-IsExclusive : (a b : Locks) → Step true a b → IsExclusive a → IsExclusive b
Step-IsExclusive a b (open_old s p i e at) v = stays s v p (opened i) (λ j h. cc) (λ h. cc) tt
Step-IsExclusive a b (open_new s p e at) v =
    moved s p (opened s.fresh) (some s.fresh) (suc s.fresh) v (λ q i n h. cc) (λ q n h. cc) tt
      (λ q n.
        AtPath-none s.fresh (s.phase q) (subst (λ path. AtPath path (s.phase q)) at (v.at_path q)))
Step-IsExclusive a b (refuse s p i e) v = stays s v p idle (λ j h. cc) (λ h. cc) tt
Step-IsExclusive a b (take_lock s p i e free) v =
    locked s v p (taken i) i free (λ j h. ground (arith, h)) (λ h. cc) tt
Step-IsExclusive a b (hold s p i e at) v =
    stays s v p (holding i) (λ j h. ap (λ f. locks f j) e ∙ h) (λ h. cc) at
Step-IsExclusive a b (start_over s p i e at) v = stays s v p idle (λ j h. cc) (λ h. cc) tt
Step-IsExclusive a b (release s p i e) v = stays s v p idle (λ j h. cc) (λ h. cc) tt
Step-IsExclusive a b (prune_open s p i e at nobody) v =
    moved s p (pruning i) s.at_path s.fresh v (λ q j n h. cc) (λ q n h. nobody refl q) at
      (λ q n. v.at_path q)
Step-IsExclusive a b (prune_busy s p i e) v = stays s v p idle (λ j h. cc) (λ h. cc) tt
Step-IsExclusive a b (prune_take s p i e free) v =
    locked s v p (prune_taken i) i free (λ j h. ground (arith, h)) (λ h. ap prunes e)
      (subst (AtPath s.at_path) e (v.at_path p))
Step-IsExclusive a b (prune_remove s p i e) v =
    moved s p (removed i) none s.fresh v
      (λ q j n h. not_true (λ k. n (v.one_locks p q j (ap (λ f. locks f j) e ∙ h) k)))
      (λ q n h. not_true (λ k. n (v.one_prunes p q (ap prunes e) k))) tt
      (λ q n. gone s v p q i e n (s.phase q) refl)
Step-IsExclusive a b (prune_close s p i e) v = stays s v p idle (λ j h. cc) (λ h. cc) tt

Steps-IsExclusive : (a b : Locks) → Steps true a b → IsExclusive a → IsExclusive b
Steps-IsExclusive a b (ended s) v = v
Steps-IsExclusive a c (onward s b z steps step) v =
    Step-IsExclusive b c step (Steps-IsExclusive a b steps v)

unlocked-IsExclusive : (at_path : Option ℕ) (fresh : ℕ) → IsExclusive (unlocked at_path fresh)
unlocked-IsExclusive at_path fresh = record {
  one_locks = λ p q i h k. cc;
  one_prunes = λ p q h k. cc;
  at_path = λ p. tt;
}

-- Of the commands that take an instance's lock, and of the passes of `cleanup` that delete its file, in any order of
-- their steps, no two commands hold the lock at once, as long as a pass comes to the file only when no other is at it.
pub holding-exclusive :
    (at_path : Option ℕ) (fresh : ℕ) (s : Locks) (p q i j : ℕ)
    → Steps true (unlocked at_path fresh) s
    → s.phase p ≡ holding i
    → s.phase q ≡ holding j
    → p ≡ q
holding-exclusive at_path fresh s p q i j steps e f =
    let v =
      Steps-IsExclusive (unlocked at_path fresh) s steps (unlocked-IsExclusive at_path fresh) in
    let mine : s.at_path ≡ some i = subst (AtPath s.at_path) e (v.at_path p) in
    let theirs : s.at_path ≡ some j = subst (AtPath s.at_path) f (v.at_path q) in
    v.one_locks p q i (ap (λ k. locks k i) e ∙ ==-refl i) (
      ap (λ k. locks k i) f
      ∙ subst (λ k. (j == k) ≡ true) (some-injective (sym theirs ∙ mine)) (==-refl j))
