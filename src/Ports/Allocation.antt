-- ===== src/Ports/Allocation.antt =====
-- crates/newgit-core/src/ports.rs: `allocate` against a search of its window.
use newgit.Prelude.{
  ℕ, zero, suc, ◌+◌, ◌-◌, ◌≤◌, ◌<◌, ◌≡◌, refl, sym, ap, ◌∙◌, Bool, true, Option, none, some, List,
  [], ◌∷◌, find, arith, leb, ltb, if◌then◌else◌, Bool-cases, inl, inr,
}
use mathlib.Core.Option.{some-injective}
use newgit.Error.{no_port_scanning_up, no_port_within, Result, ok, err}
use newgit.Ports.{Address, max_port, is_free, allocate_loop, allocate}

-- `count` ports from `first` on.
unfoldable pub span : ℕ → ℕ → List ℕ
span first zero = []
span first (suc count) = first ∷ span (suc first) count

-- The ports of `allocatable_range`, in the order of the scan.
unfoldable pub window : ℕ → List ℕ
window start = span start (if ltb 64535 start then suc (65535 - start) else 1001)

module _ (start : ℕ) (used : List ℕ) where
  -- What the scan returns for the first free port of its window.
  unfoldable pub outcome : Option ℕ → Result (ℕ × List ℕ)
  outcome (some port) = ok (port, port ∷ used)
  outcome none = err (if leb 64535 start then no_port_scanning_up start else no_port_within start)

module _ (probe : Address → ℕ → Bool) (start : ℕ) (used : List ℕ) where
  loop_lem :
      (n fuel candidate : ℕ)
      → start ≤ candidate
      → candidate + suc n ≡ (if ltb 64535 start then 65536 else start + 1001)
      → n < fuel
      → allocate_loop probe start used fuel candidate
        ≡ some (outcome start used (find (is_free probe start used) (span candidate (suc n))))
  unfolding allocate_loop outcome span
  loop_lem n zero candidate h e f = ground arith
  loop_lem zero (suc fuel) candidate h e f =
      elim (Bool-cases (is_free probe start used candidate)) [
        | inl k ↦ rw k refl
        | inr k ↦ ground (arith, k)
      ]
  loop_lem (suc n) (suc fuel) candidate h e f =
      elim (Bool-cases (is_free probe start used candidate)) [
        | inl k ↦ rw k refl
        | inr k ↦ ground (arith, k, loop_lem n fuel (suc candidate))
      ]

  -- `allocate` returns, and returns the first free port of the window, added to the used ones; with
  -- none free it fails with the error that names the reason. The start is a port.
  pub allocate-window :
      start ≤ max_port
      → allocate probe start used
        ≡ some (outcome start used (find (is_free probe start used) (window start)))
  unfolding allocate window
  allocate-window h = elim (Bool-cases (ltb 64535 start)) [
    | inl k ↦
        rw k (loop_lem (65535 - start) 1001 start (omega arith) (rw k (omega arith)) (ground arith))
    | inr k ↦ rw k (loop_lem 1000 1001 start (omega arith) (rw k (omega arith)) (omega arith))
  ]

-- What a search of a span finds lies in it and passes the test.
pub find-span :
    (p : ℕ → Bool) (first count port : ℕ)
    → find p (span first count) ≡ some port
    → (p port ≡ true) × (first ≤ port) × (port < first + count)
unfolding span
find-span p first zero port h = cc
find-span p first (suc count) port h = elim (Bool-cases (p first)) [
  | inl k ↦
      let e : first ≡ port = some-injective first port (sym (first_lem k) ∙ h) in
      (ap p (sym e) ∙ k, omega arith, omega arith)
  | inr k ↦ ground (arith, k, find-span p (suc first) count port)
]
  where
    first_lem : p first ≡ true → find p (span first (suc count)) ≡ some first
    first_lem k = rw k refl
