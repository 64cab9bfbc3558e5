-- ===== src/Resource/Edges.antt =====
-- crates/newgit-core/src/resource.rs: what the inferred edges stand on.
use newgit.Prelude.{
  ◌≡◌, refl, subst, sym, ◌∙◌, Bool, true, false, not, ◌&&◌, Option, none, some, List, [], ◌∷◌, ◌++◌,
  any, all, ◌==◌, nat_eq, list_eq, contains, arith, Bool-cases, inl, inr, In, any_of_In, ==-refl,
}
use mathlib.Core.Option.{some-injective}
use newgit.Text.{Text}
use newgit.Templates.{export_placeholders}
use newgit.Resource.{
  ResourceDefinition, DataEdge, exported_names, insert_names, owners_from, export_owners, lookup,
  templates, edge_to, name_edges, template_edges, resource_edges, data_edges,
}

-- The resource of that name exports or captures the name.
abbrev pub exports_name : List ResourceDefinition → Text → Text → Bool
exports_name resources owner name =
    any (λ r. r.name == owner && contains (exported_names r) name) resources

-- The resource of that name has a template that reads the name.
abbrev pub reads_name : List ResourceDefinition → Text → Text → Bool
reads_name resources reader name =
    any (λ r. r.name == reader && any (λ t. contains (export_placeholders t) name) (templates r))
      resources

abbrev pub is_needed : List ResourceDefinition → DataEdge → Bool
is_needed resources (reader, owner, name) =
    not (owner == reader) && exports_name resources owner name && reads_name resources reader name

module _ {A : Type 0} where
  all-append : (p : A → Bool) (xs ys : List A) → all p (xs ++ ys) ≡ (all p xs && all p ys)
  all-append p [] ys = refl
  all-append p (x ∷ xs) ys = ground (arith, all-append p xs ys)

-- Entries whose owner declares their name.
abbrev are_declared : List ResourceDefinition → List (Text × Text) → Bool
are_declared resources = all (λ (name, owner). exports_name resources owner name)

module _ (resources : List ResourceDefinition) where
  lookup-declared :
      (owners : List (Text × Text)) (name owner : Text)
      → are_declared resources owners ≡ true
      → lookup name owners ≡ some owner
      → exports_name resources owner name ≡ true
  unfolding lookup
  lookup-declared [] name owner d h = cc
  lookup-declared ((key, value) ∷ owners) name owner d h = elim (Bool-cases (key == name)) [
    | inl e ↦
        let found : some value ≡ some owner = sym (here e) ∙ h in
        let same : key ≡ name = ground (arith, e) in
        subst (λ o. exports_name resources o name ≡ true) (some-injective value owner found)
          (subst (λ n. exports_name resources value n ≡ true) same (ground (arith, d)))
    | inr e ↦ lookup-declared owners name owner (ground (arith, d)) (sym (later e) ∙ h)
  ]
    where
      here : (key == name) ≡ true → lookup name ((key, value) ∷ owners) ≡ some value
      here e = rw e refl

      later : (key == name) ≡ false → lookup name ((key, value) ∷ owners) ≡ lookup name owners
      later e = rw e refl

  insert_names-declared :
      (names : List Text) (owner : Text) (owners : List (Text × Text))
      → ((n : Text) → contains names n ≡ true → exports_name resources owner n ≡ true)
      → are_declared resources owners ≡ true
      → are_declared resources (insert_names names owner owners) ≡ true
  insert_names-declared [] owner owners h d = d
  insert_names-declared (name ∷ names) owner owners h d =
      insert_names-declared names owner ((name, owner) ∷ owners) (λ n m. h n (ground (arith, m)))
        (rw (h name (rw (==-refl name) refl)) d)

  owners_from-declared :
      (rs : List ResourceDefinition) (owners : List (Text × Text))
      → ((r : ResourceDefinition) → In r rs → In r resources)
      → are_declared resources owners ≡ true
      → are_declared resources (owners_from rs owners) ≡ true
  owners_from-declared [] owners s d = d
  owners_from-declared (r ∷ rs) owners s d =
      owners_from-declared rs (insert_names (exported_names r) r.name owners) (λ x m. s x (inr m))
        (insert_names-declared (exported_names r) r.name owners
          (λ n m.
            any_of_In (λ x. x.name == r.name && contains (exported_names x) n) r resources
              (s r (inl refl)) (rw (==-refl r.name, m) refl))
          d)

  module _ (owners : List (Text × Text)) (declared : are_declared resources owners ≡ true) where
    name_edges-needed :
        (r : ResourceDefinition) (names : List Text)
        → ((n : Text) → contains names n ≡ true → reads_name resources r.name n ≡ true)
        → all (is_needed resources) (name_edges owners r names) ≡ true
    unfolding name_edges
    name_edges-needed r [] h = refl
    name_edges-needed r (name ∷ names) h =
        rw
          (
            all-append (is_needed resources) (edge_to r name (lookup name owners))
                (name_edges owners r names),
            edge_lem (lookup name owners) refl,
            name_edges-needed r names (λ n m. h n (ground (arith, m))),
          )
          refl
      where
        edge_lem :
            (o : Option Text)
            → lookup name owners ≡ o
            → all (is_needed resources) (edge_to r name o) ≡ true
        edge_lem none e = refl
        edge_lem (some owner) e = elim (Bool-cases (owner == r.name)) [
          | inl k ↦ rw k refl
          | inr k ↦ rw k (
              rw (k, lookup-declared owners name owner declared e, h name (rw (==-refl name) refl))
                refl)
        ]

    template_edges-needed :
        (r : ResourceDefinition) (ts : List Text)
        → In r resources
        → ((t : Text) → In t ts → In t (templates r))
        → all (is_needed resources) (template_edges owners r ts) ≡ true
    unfolding template_edges
    template_edges-needed r [] m s = refl
    template_edges-needed r (t ∷ ts) m s =
        rw
          (
            all-append (is_needed resources) (name_edges owners r (export_placeholders t))
                (template_edges owners r ts),
            name_edges-needed r (export_placeholders t) (λ n k.
                any_of_In
                  (λ x.
                    x.name == r.name && any (λ t. contains (export_placeholders t) n) (templates x))
                  r resources m
                  (rw
                    (
                      ==-refl r.name,
                      any_of_In (λ t. contains (export_placeholders t) n) t (templates r)
                          (s t (inl refl)) k,
                    )
                    refl)),
            template_edges-needed r ts m (λ x k. s x (inr k)),
          )
          refl

    resource_edges-needed :
        (rs : List ResourceDefinition)
        → ((r : ResourceDefinition) → In r rs → In r resources)
        → all (is_needed resources) (resource_edges owners rs) ≡ true
    unfolding resource_edges
    resource_edges-needed [] s = refl
    resource_edges-needed (r ∷ rs) s =
        rw
          (
            all-append (is_needed resources) (template_edges owners r (templates r))
                (resource_edges owners rs),
            template_edges-needed r (templates r) (s r (inl refl)) (λ t k. k),
            resource_edges-needed rs (λ x k. s x (inr k)),
          )
          refl

  -- Every inferred edge is needed: it leads from one resource to another, the one has a template that
  -- reads the name, and the other exports or captures that name.
  pub all-data_edges : all (is_needed resources) (data_edges resources) ≡ true
  unfolding data_edges export_owners
  all-data_edges =
      resource_edges-needed (owners_from resources [])
        (owners_from-declared resources [] (λ r m. m) refl) resources (λ r m. m)
