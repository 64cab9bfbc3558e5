-- ===== src/Ports.antt =====
-- crates/newgit-core/src/ports.rs: the ports that instances hold, the allocator's scan for a free
-- one, and the comparison behind `ports --check`. Whether a port can be bound on the host is a
-- parameter, as are the processes that listen.
pub mod Allocation
pub mod Audit
use newgit.Prelude.{
  ℕ, zero, suc, ◌+◌, ◌-◌, Bool, true, false, not, ◌&&◌, ◌||◌, Option, none, some, List, [], ◌∷◌,
  ◌++◌, map, any, filter, find, contains, ltb, leb, ◌==◌, nat_eq, if◌then◌else◌,
}
use mathlib.Core.List.{flat_map}
use mathlib.Core.Option
use newgit.Text.{Text, has_substring, is_empty}
use newgit.Error.{no_port_scanning_up, no_port_within, Result, ok, err}
use newgit.Branch.{BranchInstance, ResourceBinding, port_claims}

abbrev pub max_port : ℕ
max_port = 65535

abbrev pub port_values : Text × ResourceBinding → List ℕ
port_values (name, binding) = map (λ (key, port). port) binding.resolved_ports

unfoldable pub used_ports : List BranchInstance → List ℕ
used_ports branches = flat_map port_values (flat_map port_claims branches)

-- `probe` is the socket's: its argument tells the loopback and the wildcard address of IPv4 and
-- IPv6 apart.
pub data Address : Type 0 where
  loopback4 wildcard4 loopback6 wildcard6 : Address

unfoldable pub bindable : (Address → ℕ → Bool) → ℕ → Bool
bindable probe port =
    probe loopback4 port && probe wildcard4 port && probe loopback6 port && probe wildcard6 port

module _ (probe : Address → ℕ → Bool) (start : ℕ) (used : List ℕ) where
  -- The test of the loop: a port that the scan takes.
  abbrev pub is_free : ℕ → Bool
  is_free candidate = not (contains used candidate) && bindable probe candidate

  -- The loop from a candidate, with fuel for that many of them.
  unfoldable pub allocate_loop : ℕ → ℕ → Option (Result (ℕ × List ℕ))
  allocate_loop zero candidate = none
  allocate_loop (suc fuel) candidate =
      let next = allocate_loop fuel (suc candidate) in
      if is_free candidate
      then some (ok (candidate, candidate ∷ used))
      else if leb max_port candidate
      then some (err (no_port_scanning_up start))
      else if ltb 1000 (suc candidate - start)
      then some (err (no_port_within start))
      else next

  -- The port with the set after it.
  unfoldable pub allocate : Option (Result (ℕ × List ℕ))
  allocate = allocate_loop 1001 start

-- The window of `allocate`, by its two ends.
unfoldable pub allocatable_range : ℕ → ℕ × ℕ
allocatable_range start = (start, (if ltb max_port (start + 1000) then max_port else start + 1000))

abbrev pub in_range : ℕ → ℕ × ℕ → Bool
in_range port (first, last) = leb first port && leb port last

pub record ListeningPort : Type 0 where
  pub port : ℕ
  pub pid : Option ℕ
  pub command : Text

pub record PortCheck : Type 0 where
  pub port : ℕ
  pub claimed : Bool
  pub claimed_by : Option Text
  pub attributed_to : Option Text

abbrev pub claims_port : ℕ → BranchInstance → Bool
claims_port port branch =
    any (λ (name, binding). any (λ (key, p). p == port) binding.resolved_ports) (port_claims branch)

abbrev pub is_attributed : Text → BranchInstance → Bool
is_attributed command branch =
    has_substring command branch.name || has_substring command branch.workspace_path

abbrev pub is_some {ℓ} : {A : Type ℓ} → Option A → Bool
is_some none = false
is_some (some x) = true

unfoldable pub check_port : List BranchInstance → ListeningPort → PortCheck
check_port branches listener =
    let claimed_by = find (claims_port listener.port) branches in
    record {
      port = listener.port;
      claimed = is_some claimed_by;
      claimed_by = Option.map (λ branch. branch.name) claimed_by;
      attributed_to =
          if is_empty listener.command
          then none
          else Option.map (λ branch. branch.name) (find (is_attributed listener.command) branches);
    }

-- The definitions enter by the start of each of their port requests.
unfoldable pub check_ports :
    List BranchInstance → List (List ℕ) → List ListeningPort → List PortCheck
check_ports branches port_starts listening =
    let ranges = map allocatable_range (flat_map (λ starts. starts) port_starts) in
    map (check_port branches) (filter (λ listener. any (in_range listener.port) ranges) listening)
