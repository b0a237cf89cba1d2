-- ===== src/Registry/Merged.antt =====
-- What a discovery of backendmanager.go registers of the backends' answers.
use proxycache.Base.{
  ℤ, ◌≡◌, refl, sym, ap, subst, ◌∙◌, String, Bool, true, false, ◌&&◌, ◌||◌, Option, none, some,
  List, [], ◌∷◌, ◌++◌, Map, arith, lookup, lookup_or, lookup-insert, lookup_or-insert, insert,
  or_else, if◌then◌else◌, str_eq, str_eq_iff, string_eq, Bool-cases, Option-cases, inl, inr,
}
use proxycache.Ring.{has_string}
use proxycache.Registry.{
  DiscoveredModel, BackendManager, BeCtx, Discovered, backends_of, add_model, add_models,
  collect_one, collect, merged_model, merge_models, discover_own_models, serves_model,
}

-- The backends collected for a model.
abbrev entries : String → Discovered → List BeCtx
entries name d = lookup_or [] name d.all_discovered

abbrev pub lists : String → List (String × ℤ) → Bool
lists name [] = false
lists name ((n, ctx) ∷ ms) = str_eq n name || lists name ms

-- Some backend of the list with that key is up and reports the model.
abbrev pub offers :
    (String → Bool) → (String → Option (List (String × ℤ))) → String → String → List String → Bool
offers up discover name be [] = false
offers up discover name be (k ∷ ks) =
    (str_eq k be && (up k && lists name (or_else [] (discover k)))) || offers up discover name be ks

has_string-snoc :
    (be : String) (es : List BeCtx) (e : BeCtx)
    → has_string be (backends_of (es ++ e ∷ []))
      ≡ (has_string be (backends_of es) || str_eq e.be be)
has_string-snoc be [] e = ground arith
has_string-snoc be (x ∷ xs) e = ground (arith, has_string-snoc be xs e)

add_model-entries :
    (name be k : String) (m : String × ℤ) (d : Discovered)
    → has_string be (backends_of (entries name (add_model k m d)))
      ≡ (has_string be (backends_of (entries name d)) || (str_eq k be && str_eq m.0 name))
unfolding add_model
add_model-entries name be k (n, ctx) d =
    let entry : BeCtx = record { be = k; n_ctx = ctx } in
    let new = lookup_or [] n d.all_discovered ++ entry ∷ [] in
    elim (Bool-cases (str_eq n name)) [
      | inr f ↦
          ap (λ es. has_string be (backends_of es))
            (lookup_or-insert [] n name new d.all_discovered
              ∙ ap (λ b. if b then new else entries name d) f)
          ∙ ground arith
      | inl t ↦
          ap (λ es. has_string be (backends_of es))
            (lookup_or-insert [] n name new d.all_discovered
              ∙ ap (λ b. if b then new else entries name d) t)
          ∙ has_string-snoc be (entries n d) entry
          ∙ ap (λ x. has_string be (backends_of (entries x d)) || str_eq k be)
              ((str_eq_iff n name).0 t)
          ∙ ground arith
    ]

add_models-entries :
    (name be k : String) (ms : List (String × ℤ)) (d : Discovered)
    → has_string be (backends_of (entries name (add_models k ms d)))
      ≡ (has_string be (backends_of (entries name d)) || (str_eq k be && lists name ms))
unfolding add_models
add_models-entries name be k [] d = ground arith
add_models-entries name be k ((n, ctx) ∷ ms) d = ground (
  arith,
  add_models-entries name be k ms (add_model k (n, ctx) d),
  add_model-entries name be k (n, ctx) d,
)

-- A model that has not been seen has no entries.
abbrev IsSeen : Discovered → Type 0
IsSeen d =
    (name : String) → has_string name d.first_seen ≡ false → lookup name d.all_discovered ≡ none

has_string-end :
    (name n : String) (names : List String)
    → has_string name (names ++ n ∷ []) ≡ (has_string name names || str_eq n name)
has_string-end name n [] = ground arith
has_string-end name n (m ∷ ms) = ground (arith, has_string-end name n ms)

unseen_before :
    (name n : String) (o : Option (List BeCtx)) (seen : List String) (all : Map String (List BeCtx))
    → lookup n all ≡ o
    → (has_string name seen ≡ false → lookup name all ≡ none)
    → has_string name (elim o as (λ x. List String) [ none ↦ seen ++ n ∷ [] | some es ↦ seen ])
      ≡ false
    → (str_eq n name ≡ false) × (lookup name all ≡ none)
unseen_before name n none seen all e h absent = ground (arith, has_string-end name n seen)
unseen_before name n (some es) seen all e h absent =
    let gone = h absent in
    elim (Bool-cases (str_eq n name)) [
      | inr f ↦ (f, gone)
      | inl t ↦
          let same : lookup n all ≡ none =
            ap (λ x. lookup x all) ((str_eq_iff n name).0 t) ∙ gone in
          ground arith
    ]

add_model-IsSeen :
    (k : String) (m : String × ℤ) (d : Discovered) → IsSeen d → IsSeen (add_model k m d)
unfolding add_model
add_model-IsSeen k (n, ctx) d h name absent =
    let (other, gone) =
      unseen_before name n (lookup n d.all_discovered) d.first_seen d.all_discovered refl (h name)
        absent in
    let entry : BeCtx = record { be = k; n_ctx = ctx } in
    let new = lookup_or [] n d.all_discovered ++ entry ∷ [] in
    lookup-insert n name new d.all_discovered
    ∙ ap (λ b. if b then some new else lookup name d.all_discovered) other
    ∙ gone

add_models-IsSeen :
    (k : String) (ms : List (String × ℤ)) (d : Discovered) → IsSeen d → IsSeen (add_models k ms d)
unfolding add_models
add_models-IsSeen k [] d h = h
add_models-IsSeen k (m ∷ ms) d h =
    add_models-IsSeen k ms (add_model k m d) (add_model-IsSeen k m d h)

some_inj : {a b : Discovered} → (some a ≡ some b) → a ≡ b
some_inj h = ground arith

none-some : {a : Discovered} → (none ≡ some a) → ⊥
none-some h = ground arith

or_assoc : (a b c : Bool) → ((a || b) || c) ≡ (a || (b || c))
or_assoc a b c = ground arith

-- What a round collects.
collect_one-listed :
    (t : Bool) (o : Option (List (String × ℤ))) (k : String) (before after : Discovered)
    → IsSeen before
    → collect_one t o k before ≡ some after
    → IsSeen after
      × ((name be : String)
          → has_string be (backends_of (entries name after)) ≡ (
              has_string be (backends_of (entries name before))
              || (str_eq k be && (t && lists name (or_else [] o)))))
unfolding collect_one
collect_one-listed false o k before after h e =
    let same : before ≡ after = some_inj e in
    subst
      (λ d.
        IsSeen d
        × ((name be : String)
            → has_string be (backends_of (entries name d)) ≡ (
                has_string be (backends_of (entries name before))
                || (str_eq k be && (false && lists name (or_else [] o))))))
      same (h, λ name be. ground arith)
collect_one-listed true none k before after h e = ground arith
collect_one-listed true (some ms) k before after h e =
    let same : add_models k ms before ≡ after = some_inj e in
    subst
      (λ d.
        IsSeen d
        × ((name be : String)
            → has_string be (backends_of (entries name d)) ≡ (
                has_string be (backends_of (entries name before))
                || (str_eq k be && (true && lists name ms)))))
      same (add_models-IsSeen k ms before h, λ name be. add_models-entries name be k ms before)

module _ (up : String → Bool) (discover : String → Option (List (String × ℤ))) where
  collect-listed :
      (keys : List String) (before after : Discovered)
      → IsSeen before
      → collect up discover keys before ≡ some after
      → IsSeen after
        × ((name be : String)
            → has_string be (backends_of (entries name after)) ≡ (
                has_string be (backends_of (entries name before))
                || offers up discover name be keys))
  unfolding collect
  collect-listed [] before after h e =
      subst
        (λ d.
          IsSeen d
          × ((name be : String)
              → has_string be (backends_of (entries name d))
                ≡ (has_string be (backends_of (entries name before)) || false)))
        (some_inj e) (h, λ name be. ground arith)
  collect-listed (k ∷ ks) before after h e =
      elim (Option-cases (collect_one (up k) (discover k) k before)) [
        | inl stopped ↦ absurd (none-some (sym (step stopped) ∙ e))
        | inr (mid, round) ↦
            let (seen, here) = collect_one-listed (up k) (discover k) k before mid h round in
            let (done, later) = collect-listed ks mid after seen (sym (step round) ∙ e) in
            (
              done,
              λ name be.
                  later name be
                  ∙ ap (λ b. b || offers up discover name be ks) (here name be)
                  ∙ or_assoc (has_string be (backends_of (entries name before)))
                      (str_eq k be && (up k && lists name (or_else [] (discover k))))
                      (offers up discover name be ks),
            )
      ]
    where
      step :
          {o : Option Discovered}
          → collect_one (up k) (discover k) k before ≡ o
          → collect up discover (k ∷ ks) before ≡ (elim o as (λ x. Option Discovered) [
            | none ↦ none
            | some d ↦ collect up discover ks d
          ])
      step q =
          ap
            (λ o. elim o as (λ x. Option Discovered) [
              | none ↦ none
              | some d ↦ collect up discover ks d
            ])
            q

  lookup-merge_models :
      (all : Map String (List BeCtx)) (name : String) (names : List String)
      (merged : Map String DiscoveredModel)
      → lookup name (merge_models all names merged) ≡ (
          if has_string name names
          then some (merged_model name (lookup_or [] name all))
          else lookup name merged)
  unfolding merge_models
  lookup-merge_models all name [] merged = refl
  lookup-merge_models all name (n ∷ names) merged =
      let model = merged_model n (lookup_or [] n all) in
      let ih = lookup-merge_models all name names (insert n model merged) in
      let put = lookup-insert n name model merged in
      elim (Bool-cases (has_string name names)) [
        | inl t ↦ ground (arith, ih)
        | inr f ↦ elim (Bool-cases (str_eq n name)) [
          | inr g ↦ ground (arith, ih, put)
          | inl t ↦
              let same = ap (λ x. merged_model x (lookup_or [] x all)) ((str_eq_iff n name).0 t) in
              ground (arith, ih, put, same)
        ]
      ]

  serves_model-of :
      (bm : BackendManager) (name be : String) (t : Bool) (es : List BeCtx)
      → lookup name bm.discovered_models ≡ (if t then some (merged_model name es) else none)
      → serves_model bm name be ≡ (t && has_string be (backends_of es))
  unfolding serves_model merged_model
  serves_model-of bm name be true es h = rw (h, serves_model) refl
  serves_model-of bm name be false es h = rw (h, serves_model) refl

  unseen_entries :
      (name : String) (d : Discovered) → lookup name d.all_discovered ≡ none → entries name d ≡ []
  unfolding lookup_or
  unseen_entries name d h = ap (or_else []) h

  seen_or_absent :
      (name be : String) (d : Discovered)
      → (has_string name d.first_seen ≡ false → lookup name d.all_discovered ≡ none)
      → (has_string name d.first_seen && has_string be (backends_of (entries name d)))
        ≡ has_string be (backends_of (entries name d))
  seen_or_absent name be d h = elim (Bool-cases (has_string name d.first_seen)) [
    | inl t ↦ ap (λ b. b && has_string be (backends_of (entries name d))) t
    | inr f ↦
        ap (λ b. b && has_string be (backends_of (entries name d))) f
        ∙ ap (λ es. has_string be (backends_of es)) (sym (unseen_entries name d (h f)))
  ]

  abbrev nothing : Discovered
  nothing = record { all_discovered = []; first_seen = [] }

  -- After a discovery that succeeds, before synthetic models are added, the registry lists a backend
  -- for a model exactly where a backend of that key is up and reported the model.
  pub discover_own_models-serves :
      (keys : List String) (bm : BackendManager) (name be : String)
      → (discover_own_models up discover keys bm).0 ≡ true
      → serves_model (discover_own_models up discover keys bm).1 name be
        ≡ offers up discover name be keys
  unfolding discover_own_models lookup lookup_or
  discover_own_models-serves keys bm name be ok =
      elim (Option-cases (collect up discover keys nothing)) [
        | inl e ↦ ground arith
        | inr (d, e) ↦
            let (seen, listed) = collect-listed keys nothing d (λ n h. refl) e in
            rw (e, discover_own_models)
              (serves_model-of
                  (record {
                    discovered_models = merge_models d.all_discovered d.first_seen [];
                    model_order = d.first_seen;
                  })
                  name be (has_string name d.first_seen) (entries name d)
                  (lookup-merge_models d.all_discovered name d.first_seen [])
                ∙ seen_or_absent name be d (seen name)
                ∙ listed name be)
      ]
