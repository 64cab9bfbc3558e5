-- ===== src/Tests/Ports.antt =====
-- The allocator and `ports --check` at concrete records.
use native.Mathlib.Decide.{ℕ_discrete}
use mathlib.Core.List.{flat_map}
use newgit.Prelude.{
  any, true, map, ℕ, ◌≡◌, refl, arith, List, [], ◌∷◌, map, find, contains, Bool, true, false, none,
  some, nat_eq,
}
use newgit.Text.{bytes}
use newgit.Error.{ok}
use newgit.Branch.{BranchInstance, ResourceBinding, ready, active, port_claims, suspended}
use newgit.Ports.{
  Address, bindable, is_free, allocate, allocate_loop, used_ports, allocatable_range, in_range,
  is_some, claims_port, check_port, check_ports, ListeningPort,
}
use newgit.Ports.Allocation.{allocate-window, outcome, window}
use newgit.Ports.Audit.{allocate-check_ports, check_ports-used_ports, has_port}

-- Nothing else runs on the host.
abbrev idle : Address → ℕ → Bool
idle address port = true

abbrev web_binding : ResourceBinding
web_binding = record {
  definition_rev = [];
  resolved_ports = (bytes "http", 3000) ∷ [];
  resolved_exports = [];
  rendered = [];
  status = ready;
  restore_proven = false;
  render_error = none;
  export_error = none;
}

abbrev login : BranchInstance
login = record {
  id = bytes "br_login_1";
  name = bytes "login";
  slug = bytes "login";
  source_ref = bytes "main";
  source_rev = [];
  base_ref = none;
  base_rev = none;
  created_source_branch = true;
  workspace_path = bytes "/w/login";
  status = active;
  trackers = [];
  resources = (bytes "web", web_binding) ∷ [];
  dropped = [];
  parked = [];
  remote = none;
  private = false;
  created_at = 1;
  updated_at = 1;
}

allocate-window_example :
    allocate idle 3000 (3000 ∷ [])
    ≡ some (outcome 3000 (3000 ∷ []) (find (is_free idle 3000 (3000 ∷ [])) (window 3000)))
allocate-window_example = allocate-window idle 3000 (3000 ∷ []) (omega arith)

next_free :
    allocate idle 3000 (used_ports (login ∷ [])) ≡ some (ok (3001, 3001 ∷ used_ports (login ∷ [])))
unfolding allocate allocate_loop used_ports port_claims flat_map bindable nat_eq ℕ_discrete
next_free = refl

allocate-check_ports_example :
    (in_range 3001 (allocatable_range 3000) ≡ true)
    × (bindable idle 3001 ≡ true)
    × (is_some (find (claims_port 3001) (login ∷ [])) ≡ false)
allocate-check_ports_example =
    allocate-check_ports idle (login ∷ []) 3000 3001 (3001 ∷ used_ports (login ∷ [])) (omega arith)
      next_free

abbrev listening : List ListeningPort
listening =
    record { port = 3000; pid = none; command = [] }
    ∷ record { port = 3001; pid = none; command = bytes "vite /w/login" }
    ∷ []

-- The branch holds 3001 by a parked binding.
abbrev parked_login : BranchInstance
parked_login = record login {
  parked =
      (
        bytes "db",
        record {
          binding = record web_binding { resolved_ports = (bytes "sql", 3001) ∷ [] };
          state = suspended;
        },
      )
      ∷ [];
}

parked_claimed :
    map (λ c. c.claimed) (check_ports (parked_login ∷ []) ((3000 ∷ []) ∷ []) listening)
    ≡ true ∷ true ∷ []
unfolding check_ports check_port port_claims nat_eq ℕ_discrete allocatable_range flat_map
parked_claimed = refl

check_ports-used_ports_example :
    (map (λ c. c.claimed) (check_ports (parked_login ∷ []) ((3000 ∷ []) ∷ []) listening)
      ≡ map
          (λ c. any (has_port c.port) (parked_login ∷ []))
          (check_ports (parked_login ∷ []) ((3000 ∷ []) ∷ []) listening))
    × (map
          (λ c. contains (used_ports (parked_login ∷ [])) c.port)
          (check_ports (parked_login ∷ []) ((3000 ∷ []) ∷ []) listening)
        ≡ map
            (λ c. any (has_port c.port) (parked_login ∷ []))
            (check_ports (parked_login ∷ []) ((3000 ∷ []) ∷ []) listening))
check_ports-used_ports_example =
    check_ports-used_ports (parked_login ∷ []) ((3000 ∷ []) ∷ []) listening
