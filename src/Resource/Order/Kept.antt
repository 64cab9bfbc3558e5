-- ===== src/Resource/Order/Kept.antt =====
-- What a visit keeps of the walk (crates/newgit-core/src/resource.rs: `resolve_order`).
use newgit.Prelude.{
  ℕ, ◌≤◌, ◌<◌, ◌≡◌, sym, ◌∙◌, inl, inr, Bool, true, false, ◌||◌, Option, none, some, List, [], ◌∷◌,
  ◌++◌, filter, length, ◌==◌, nat_eq, list_eq, contains, arith, In, Bool-cases, any-append, ==-refl,
}
use newgit.Text.{Text}
use newgit.Resource.{ResourceDefinition}
use newgit.Resource.EnvNames.{GraphProblem}
use newgit.Resource.Order.{Visit, in_progress, done, Walk, visit_of, is_resource, enter, leave}
use newgit.Resource.Order.Spec.{
  is_cycle, has_cycle, deps_before, each_once, deps_before-append, each_once-append, all_of_In,
}

abbrev pub is_none : Option Visit → Bool
is_none none = true
is_none (some v) = false

module _ (resources : List ResourceDefinition) where
  -- The number of resources that the walk has not come to.
  abbrev pub fresh : List (Text × Visit) → ℕ
  fresh state = length (filter (λ r. is_none (visit_of r.name state)) resources)

-- What a visit from one walk to a later one keeps.
pub record Visited (resources : List ResourceDefinition) (w w' : Walk) : Type 0 where
  pub keeps_done : (n : Text) → visit_of n w.state ≡ some done → visit_of n w'.state ≡ some done
  pub keeps_progress :
      (n : Text) → visit_of n w.state ≡ some in_progress → visit_of n w'.state ≡ some in_progress
  pub leaves_open :
      (n : Text) → visit_of n w'.state ≡ some in_progress → visit_of n w.state ≡ some in_progress
  pub keeps_cycle : has_cycle w.problems ≡ true → has_cycle w'.problems ≡ true
  pub shrinks : fresh resources w'.state ≤ fresh resources w.state

pub Visited-refl : (resources : List ResourceDefinition) (w : Walk) → Visited resources w w
Visited-refl resources w = record {
  keeps_done = λ n h. h;
  keeps_progress = λ n h. h;
  leaves_open = λ n h. h;
  keeps_cycle = λ h. h;
  shrinks = omega arith;
}

pub Visited-trans :
    {resources : List ResourceDefinition} {w w' w'' : Walk}
    → Visited resources w w'
    → Visited resources w' w''
    → Visited resources w w''
Visited-trans p q = record {
  keeps_done = λ n h. q.keeps_done n (p.keeps_done n h);
  keeps_progress = λ n h. q.keeps_progress n (p.keeps_progress n h);
  leaves_open = λ n h. p.leaves_open n (q.leaves_open n h);
  keeps_cycle = λ h. q.keeps_cycle (p.keeps_cycle h);
  shrinks = omega (arith, p.shrinks, q.shrinks);
}

-- What every walk satisfies between two visits: the done names are the ordered ones and resources, each
-- stands there once, and with no cycle reported each stands behind its dependencies.
pub record Inv (resources : List ResourceDefinition) (deps : Text → List Text) (w : Walk)
    : Type 0 where
  pub listed : (n : Text) → visit_of n w.state ≡ some done → contains w.ordered n ≡ true
  pub finished : (n : Text) → contains w.ordered n ≡ true → visit_of n w.state ≡ some done
  pub known : (n : Text) → contains w.ordered n ≡ true → is_resource resources n ≡ true
  pub once : each_once w.ordered ≡ true
  pub sorted : has_cycle w.problems ≡ false → deps_before deps [] w.ordered ≡ true

-- Reporting a problem changes nothing else.
pub Visited-report :
    (resources : List ResourceDefinition) (w : Walk) (p : GraphProblem) (stack : List Text)
    → Visited resources w (record w { problems = w.problems ++ p ∷ []; stack = stack })
Visited-report resources w p stack = record {
  keeps_done = λ n h. h;
  keeps_progress = λ n h. h;
  leaves_open = λ n h. h;
  keeps_cycle = λ h. ground (arith, h, any-append is_cycle w.problems (p ∷ []));
  shrinks = omega arith;
}

pub Inv-report :
    {resources : List ResourceDefinition} (deps : Text → List Text) (w : Walk) (p : GraphProblem)
    (stack : List Text)
    → Inv resources deps w
    → Inv resources deps (record w { problems = w.problems ++ p ∷ []; stack = stack })
Inv-report deps w p stack i = record {
  listed = i.listed;
  finished = i.finished;
  known = i.known;
  once = i.once;
  sorted = λ h. i.sorted (ground (arith, h, any-append is_cycle w.problems (p ∷ [])));
}

pub fresh-cons-le :
    (resources : List ResourceDefinition) (name : Text) (v : Visit) (state : List (Text × Visit))
    → fresh resources ((name, v) ∷ state) ≤ fresh resources state
unfolding visit_of
fresh-cons-le [] name v state = omega arith
fresh-cons-le (r ∷ resources) name v state = elim (Bool-cases (name == r.name)) [
  | inl e ↦ rw e (ground (arith, fresh-cons-le resources name v state))
  | inr e ↦ rw e (ground (arith, fresh-cons-le resources name v state))
]

-- Coming to a resource makes one less to come to.
pub fresh-cons-lt :
    (resources : List ResourceDefinition) (name : Text) (v : Visit) (state : List (Text × Visit))
    → is_resource resources name ≡ true
    → visit_of name state ≡ none
    → fresh resources ((name, v) ∷ state) < fresh resources state
unfolding visit_of
fresh-cons-lt [] name v state m h = cc
fresh-cons-lt (r ∷ resources) name v state m h = elim (Bool-cases (r.name == name)) [
  | inl e ↦
      let same : r.name ≡ name = ground (arith, e) in
      rw (same, ==-refl name, h) (omega (arith, fresh-cons-le resources name v state))
  | inr e ↦
      let rest = fresh-cons-lt resources name v state (ground (arith, m, e)) h in
      let apart : (name == r.name) ≡ false = ground (arith, e) in rw apart (ground (arith, rest))
]

-- Entering a resource that was not visited, and leaving it after what was visited between.
pub Inv-enter :
    {resources : List ResourceDefinition} {deps : Text → List Text} {w : Walk} (name : Text)
    → visit_of name w.state ≡ none
    → Inv resources deps w
    → Inv resources deps (enter name w)
unfolding visit_of
Inv-enter {deps = deps} {w = w} name h i = record {
  listed = λ n d. ground (arith, h, d, i.listed n);
  finished = λ n c. ground (arith, h, i.finished n c);
  known = i.known;
  once = i.once;
  sorted = i.sorted;
}

pub Inv-leave :
    {resources : List ResourceDefinition} {deps : Text → List Text} {w : Walk} (name : Text)
    → visit_of name w.state ≡ some in_progress
    → is_resource resources name ≡ true
    → ((d : Text)
        → In d (deps name)
        → has_cycle w.problems ≡ false
        → visit_of d w.state ≡ some done)
    → Inv resources deps w
    → Inv resources deps (leave name w)
unfolding visit_of
Inv-leave {deps = deps} {w = w} name h r before i = record {
  listed = λ n d. ground (arith, d, i.listed n, any-append (λ x. x == n) w.ordered (name ∷ []));
  finished = λ n c. ground (arith, c, i.finished n, any-append (λ x. x == n) w.ordered (name ∷ []));
  known = λ n c. ground (arith, c, r, i.known n, any-append (λ x. x == n) w.ordered (name ∷ []));
  once = each_once-append w.ordered name i.once (elim (Bool-cases (contains w.ordered name)) [
    | inl c ↦ absurd (not_done (sym h ∙ i.finished name c))
    | inr c ↦ c
  ]);
  sorted = λ c. deps_before-append deps [] w.ordered name (i.sorted c) (
      all_of_In (λ d. false || contains w.ordered d) (deps name)
        (λ d m. i.listed d (before d m c)));
}
  where
    not_done : ¬ (some in_progress ≡ some done)
    not_done e = cc

-- Between entering a resource and leaving it, the rest of the walk is kept.
pub Visited-leave :
    {resources : List ResourceDefinition} {w w' : Walk} (name : Text)
    → visit_of name w.state ≡ none
    → is_resource resources name ≡ true
    → Visited resources (enter name w) w'
    → Visited resources w (leave name w')
unfolding visit_of
Visited-leave {resources} {w} {w'} name h r v = record {
  keeps_done = λ n d. ground (arith, h, d, v.keeps_done n);
  keeps_progress = λ n d. ground (arith, h, d, v.keeps_progress n);
  leaves_open = λ n d. ground (arith, h, d, v.leaves_open n);
  keeps_cycle = v.keeps_cycle;
  shrinks = omega (
    arith,
    v.shrinks,
    fresh-cons-lt resources name in_progress w.state r h,
    fresh-cons-le resources name done w'.state,
  );
}
