-- ===== src/Ports/Audit.antt =====
-- crates/newgit-core/src/ports.rs: `ports --check` and `allocate` read the same records.
use newgit.Prelude.{
  ℕ, suc, ◌+◌, ◌-◌, ◌≤◌, ◌<◌, ◌≡◌, refl, ap, sym, ◌∙◌, Bool, true, false, ◌||◌, Option, some, List,
  [], ◌∷◌, ◌++◌, map, find, any, any-append, arith, ltb, if◌then◌else◌, Bool-cases, Option-cases,
  inl, inr, contains, filter, ◌==◌, nat_eq,
}
use mathlib.Core.List.{flat_map, append_assoc}
use newgit.Error.{Result, ok}
use newgit.Branch.{ParkedBinding, BranchInstance, ResourceBinding, port_claims}
use newgit.Text.{Text}
use newgit.Ports.{
  Address, bindable, ListeningPort, PortCheck, max_port, is_free, allocate, allocatable_range,
  in_range, used_ports, port_values, check_ports, check_port, claims_port, is_some,
}
use newgit.Ports.Allocation.{allocate-window, find-span, outcome, window}

contains-ports :
    (port : ℕ) (ports : List (Text × ℕ))
    → any (λ (key, p). p == port) ports ≡ contains (map (λ (key, p). p) ports) port
contains-ports port [] = refl
contains-ports port ((key, p) ∷ ports) = ground (arith, contains-ports port ports)

contains-bindings :
    (port : ℕ) (bindings : List (Text × ResourceBinding))
    → any (λ (name, binding). any (λ (key, p). p == port) binding.resolved_ports) bindings
      ≡ contains (flat_map port_values bindings) port
unfolding flat_map
contains-bindings port [] = refl
contains-bindings port ((name, binding) ∷ bindings) = ground (
  arith,
  contains-ports port binding.resolved_ports,
  contains-bindings port bindings,
  any-append (λ p. p == port) (map (λ (key, p). p) binding.resolved_ports)
      (flat_map port_values bindings),
)

flat_map-append :
    {A B : Type 0} (f : A → List B) (xs ys : List A)
    → flat_map f (xs ++ ys) ≡ flat_map f xs ++ flat_map f ys
unfolding flat_map
flat_map-append f [] ys = refl
flat_map-append f (x ∷ xs) ys =
    rw (flat_map-append f xs ys) (sym (append_assoc (f x) (flat_map f xs) (flat_map f ys)))

claims-used :
    (port : ℕ) (branches : List BranchInstance)
    → is_some (find (claims_port port) branches) ≡ contains (used_ports branches) port
unfolding used_ports flat_map
claims-used port [] = refl
claims-used port (b ∷ branches) =
    rw
      (
        found (claims_port port b) b (find (claims_port port) branches),
        flat_map-append port_values (port_claims b) (flat_map port_claims branches),
        any-append (λ p. p == port) (flat_map port_values (port_claims b))
            (flat_map port_values (flat_map port_claims branches)),
        contains-bindings port (port_claims b),
        claims-used port branches,
      )
      refl
  where
    found :
        (t : Bool) (x : BranchInstance) (o : Option BranchInstance)
        → is_some (if t then some x else o) ≡ (t || is_some o)
    found true x o = refl
    found false x o = refl

abbrev pub binds_port : ℕ → ResourceBinding → Bool
binds_port port binding = any (λ (key, p). p == port) binding.resolved_ports

-- A record has the port in the binding of one of its resources, or in one of its parked bindings.
abbrev pub has_port : ℕ → BranchInstance → Bool
has_port port b =
    any (λ (name, binding). binds_port port binding) b.resources
    || any (λ (name, parked). binds_port port parked.binding) b.parked

claims_port_lem : (port : ℕ) (b : BranchInstance) → claims_port port b ≡ has_port port b
unfolding port_claims
claims_port_lem port b =
    any-append (λ (name, binding). binds_port port binding) b.resources
      (map (λ (name, parked). (name, parked.binding)) b.parked)
    ∙ ap (λ t. any (λ (name, binding). binds_port port binding) b.resources || t) (parked b.parked)
  where
    parked :
        (bindings : List (Text × ParkedBinding))
        → any
            (λ (name, binding). binds_port port binding)
            (map (λ (name, parked). (name, parked.binding)) bindings)
          ≡ any (λ (name, parked). binds_port port parked.binding) bindings
    parked [] = refl
    parked ((name, p) ∷ bindings) = ap (λ t. binds_port port p.binding || t) (parked bindings)

claims-has_port :
    (port : ℕ) (branches : List BranchInstance)
    → is_some (find (claims_port port) branches) ≡ any (has_port port) branches
claims-has_port port [] = refl
claims-has_port port (b ∷ branches) =
    found (claims_port port b) (has_port port b) (find (claims_port port) branches)
      (any (has_port port) branches) (claims_port_lem port b) (claims-has_port port branches)
  where
    found :
        (t u : Bool) (o : Option BranchInstance) (v : Bool)
        → t ≡ u
        → is_some o ≡ v
        → is_some (if t then some b else o) ≡ (u || v)
    found true u o v e h = ground (arith, e)
    found false u o v e h = ground (arith, e, h)

-- `ports --check` reports a listening port as claimed exactly when some record has it, in the binding of a resource
-- or in a parked one; and exactly then it stands among the ports that `allocate` keeps away from.
pub check_ports-used_ports :
    (branches : List BranchInstance) (port_starts : List (List ℕ)) (listening : List ListeningPort)
    → (map (λ c. c.claimed) (check_ports branches port_starts listening)
        ≡ map (λ c. any (has_port c.port) branches) (check_ports branches port_starts listening))
      × (map
            (λ c. contains (used_ports branches) c.port)
            (check_ports branches port_starts listening)
          ≡ map (λ c. any (has_port c.port) branches) (check_ports branches port_starts listening))
unfolding check_ports check_port
check_ports-used_ports branches port_starts listening = (
  reported (
      filter
        (λ l.
          any (in_range l.port) (map allocatable_range (flat_map (λ starts. starts) port_starts)))
        listening),
  kept_away (check_ports branches port_starts listening),
)
  where
    reported :
        (ls : List ListeningPort)
        → map (λ c. c.claimed) (map (check_port branches) ls)
          ≡ map (λ c. any (has_port c.port) branches) (map (check_port branches) ls)
    reported [] = refl
    reported (l ∷ ls) = rw (claims-has_port l.port branches, reported ls) refl

    kept_away :
        (cs : List PortCheck)
        → map (λ c. contains (used_ports branches) c.port) cs
          ≡ map (λ c. any (has_port c.port) branches) cs
    kept_away [] = refl
    kept_away (c ∷ cs) =
        rw (sym (claims-used c.port branches), claims-has_port c.port branches, kept_away cs) refl

abbrev chosen : Option (Result (ℕ × List ℕ)) → ℕ
chosen (some (ok (port, after))) = port
chosen o = 0

abbrev succeeded : Option (Result (ℕ × List ℕ)) → Bool
succeeded (some (ok r)) = true
succeeded o = false

module _ (probe : Address → ℕ → Bool) (branches : List BranchInstance) (start port : ℕ)
    (after : List ℕ) where
  pub allocate-check_ports :
      start ≤ max_port
      → allocate probe start (used_ports branches) ≡ some (ok (port, after))
      → (in_range port (allocatable_range start) ≡ true)
        × (bindable probe port ≡ true)
        × (is_some (find (claims_port port) branches) ≡ false)
  unfolding allocatable_range window outcome
  allocate-check_ports h e = elim (Option-cases (find (is_free probe start used) (window start))) [
    | inl k ↦
        let none_free = ap succeeded (sym e ∙ allocate-window probe start used h ∙ ap scan k) in cc
    | inr (q, k) ↦
        let same : port ≡ q = ap chosen (sym e ∙ allocate-window probe start used h ∙ ap scan k) in
        let (free, low, high) =
          find-span (is_free probe start used) start
            (if ltb 64535 start then suc (65535 - start) else 1001) q k in
        let claims = claims-used port branches in
        let free_port : is_free probe start used port ≡ true =
          ap (is_free probe start used) same ∙ free in
        (
          (rw same (range_lem q low high)),
          ground (arith, free_port),
          ground (arith, free_port, claims),
        )
  ]
    where
      used : List ℕ
      used = used_ports branches

      scan : Option ℕ → Option (Result (ℕ × List ℕ))
      scan o = some (outcome start used o)

      range_lem :
          (q : ℕ)
          → start ≤ q
          → q < start + (if ltb 64535 start then suc (65535 - start) else 1001)
          → in_range q (allocatable_range start) ≡ true
      range_lem q low high = elim (Bool-cases (ltb 64535 start)) [
        | inl k ↦ ground (arith, k)
        | inr k ↦ ground (arith, k)
      ]
