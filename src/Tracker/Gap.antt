-- ===== src/Tracker/Gap.antt =====
-- A tracker with a claim around, and another inside, a second tracker's claim
-- (crates/newgit-core/src/tracker.rs: `resolve_ownership` and `owns`).
use newgit.Prelude.{◌≡◌, ◌≢◌, sym, true, false, arith, In, is_prefix_trans}
use newgit.Text.{Text}
use newgit.Paths.{components, component_eq, under}
use newgit.Tracker.{TrackerDefinition, is_dot, owns}
use newgit.Tracker.Resolve.{all_claims, all_mounts, inside, with_excluded}
use newgit.Tracker.Taken.{taken, owns-excluded}
use mathlib.Core.List.{List}

under_trans :
    (path inner outer : Text)
    → under path inner ≡ true
    → inside inner outer ≡ true
    → is_dot outer ≡ false
    → under path outer ≡ true
unfolding under
under_trans path inner outer h i n =
    is_prefix_trans (components outer) (components inner) (components path) (ground (arith, n)) h

-- Where one tracker claims both a path around and a path inside another tracker's claim, the files
-- under the inner one are left without an owner: `resolve_ownership` takes them from both.
pub owns_gap :
    (definitions : List TrackerDefinition) (d other : TrackerDefinition)
    (outer mid inner path : Text)
    → In d definitions
    → In other definitions
    → other.name ≢ d.name
    → In outer d.paths
    → In inner d.paths
    → In mid other.paths
    → is_dot mid ≡ false
    → is_dot inner ≡ false
    → inside mid outer ≡ true
    → inside inner mid ≡ true
    → under path inner ≡ true
    → (owns (with_excluded (all_claims definitions) (all_mounts definitions) d) path ≡ false)
      × (owns (with_excluded (all_claims definitions) (all_mounts definitions) other) path ≡ false)
unfolding with_excluded
owns_gap definitions d other outer mid inner path md mo ne mouter minner mmid nm ni im ii u = (
  owns-excluded d _ path (
      taken definitions d other mid outer path mo mmid ne nm mouter im
        (under_trans path inner mid u ii nm)),
  owns-excluded other _ path
      (taken definitions other d inner mid path md minner (λ e. ne (sym e)) ni mmid ii u),
)
