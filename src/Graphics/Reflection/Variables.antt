-- ===== src/Graphics/Reflection/Variables.antt =====
-- The variables of the shaders, whose parents stand in the merged table of resources.
use mathlib.Core.Path.{subst}
use tcengine.Base.{
  ℕ, zero, suc, ◌+◌, ◌<◌, ◌≡◌, ◌≢◌, ◌⊎◌, inl, inr, refl, sym, ap, ◌∙◌, arith, true, Bool-cases,
}
use tcengine.Base.{
  Option, none, some, List, [], ◌∷◌, ◌++◌, map, if◌then◌else◌, if-false, length, get_or,
}
use tcengine.Graphics.Reflection.{
  Resource, Variable, Reflection, shaderres_cmp, shadervar_cmp, add_variable, add_variables,
  merge_variables, find_parent, copy_variable, nothing, Pipeline, written, create_merged,
  create_pipelinereflection,
}
use tcengine.Graphics.Reflection.Resources.{
  cmp_sym, same_name_self, gathered, stages_of, resources_of, with_stages,
}
use tcengine.Graphics.Reflection.Among.{
  IsAmong, IsAmong-append, IsAmong-left, IsAmong-right, IsAmong-get_or, IsAmong-map,
}
use tcengine.Graphics.Reflection.Distinct.{create_pipelinereflection-resources}

-- The variables of a stage with their resources, and those of all stages.
pub with_parents : List Resource → List Variable → List (Variable × Resource)
with_parents rs [] = []
with_parents rs (v ∷ vs) = (v, get_or rs v.parent_index nothing) ∷ with_parents rs vs

pub variables_of : List Reflection → List (Variable × Resource)
variables_of [] = []
variables_of (ref ∷ refs) = with_parents ref.resources ref.variables ++ variables_of refs

-- The reflections name parents that they have.
unfoldable pub InRange : ℕ → List Variable → Type 0
InRange n [] = Unit
InRange n (v ∷ vs) = (v.parent_index < n) × InRange n vs

unfoldable pub HaveParents : List Reflection → Type 0
HaveParents [] = Unit
HaveParents (ref ∷ refs) = InRange (length ref.resources) ref.variables × HaveParents refs

-- The loop over all variables at once.
add_all : List (Variable × Resource) → List (Variable × Resource) → List (Variable × Resource)
add_all [] us = us
add_all ((v, p) ∷ vs) us = add_all vs (add_variable v p us)

add_all-append :
    (xs ys us : List (Variable × Resource)) → add_all (xs ++ ys) us ≡ add_all ys (add_all xs us)
unfolding add_all
add_all-append [] ys us = refl
add_all-append ((v, p) ∷ xs) ys us = add_all-append xs ys (add_variable v p us)

add_all-add_variables :
    (rs : List Resource) (vs : List Variable) (us : List (Variable × Resource))
    → add_variables rs vs us ≡ add_all (with_parents rs vs) us
unfolding add_all add_variables with_parents
add_all-add_variables rs [] us = refl
add_all-add_variables rs (v ∷ vs) us =
    add_all-add_variables rs vs (add_variable v (get_or rs v.parent_index nothing) us)

add_all-merge_variables :
    (refs : List Reflection) (us : List (Variable × Resource))
    → merge_variables refs us ≡ add_all (variables_of refs) us
unfolding add_all merge_variables variables_of
add_all-merge_variables [] us = refl
add_all-merge_variables (ref ∷ refs) us =
    add_all-merge_variables refs (add_variables ref.resources ref.variables us)
    ∙ ap (add_all (variables_of refs)) (add_all-add_variables ref.resources ref.variables us)
    ∙ sym (add_all-append (with_parents ref.resources ref.variables) (variables_of refs) us)

IsAmong-add_variable :
    (x : Variable × Resource) (v : Variable) (p : Resource) (us : List (Variable × Resource))
    → IsAmong x (add_variable v p us)
    → (x ≡ (v, p)) ⊎ IsAmong x us
unfolding IsAmong add_variable
IsAmong-add_variable x v p [] h = h
IsAmong-add_variable x v p ((u, q) ∷ us) h = elim (Bool-cases (shadervar_cmp v u)) [
  | inl e ↦ let h' : IsAmong x ((u, q) ∷ us) = rw e at h in inr h'
  | inr e ↦
      let h' : (x ≡ (u, q)) ⊎ IsAmong x (add_variable v p us) = rw e at h in
      elim h' [
        | inl first ↦ inr (inl first)
        | inr later ↦ elim (IsAmong-add_variable x v p us later) [
          | inl new ↦ inl new
          | inr old ↦ inr (inr old)
        ]
      ]
]

IsAmong-add_all :
    (x : Variable × Resource) (vs us : List (Variable × Resource))
    → IsAmong x (add_all vs us)
    → IsAmong x vs ⊎ IsAmong x us
unfolding IsAmong add_all
IsAmong-add_all x [] us h = inr h
IsAmong-add_all x ((v, p) ∷ vs) us h = elim (IsAmong-add_all x vs (add_variable v p us) h) [
  | inl a ↦ inl (inr a)
  | inr b ↦ elim (IsAmong-add_variable x v p us b) [ inl new ↦ inl (inl new) | inr old ↦ inr old ]
]

with_parents-resources :
    (rs : List Resource) (vs : List Variable) (v : Variable) (q : Resource)
    → InRange (length rs) vs
    → IsAmong (v, q) (with_parents rs vs)
    → IsAmong q rs
unfolding IsAmong with_parents InRange
with_parents-resources rs [] v q r h = absurd h
with_parents-resources rs (w ∷ vs) v q (here, r) (inl e) =
    subst (λ t. IsAmong t rs) (sym (ap (λ x. x.1) e))
      (IsAmong-get_or rs w.parent_index nothing here)
with_parents-resources rs (w ∷ vs) v q (here, r) (inr h) = with_parents-resources rs vs v q r h

-- A variable's resource is one of the stages' resources.
parent-IsAmong :
    (refs : List Reflection) (v : Variable) (q : Resource)
    → HaveParents refs
    → IsAmong (v, q) (variables_of refs)
    → IsAmong q (resources_of refs)
unfolding IsAmong variables_of resources_of HaveParents
parent-IsAmong [] v q p h = absurd h
parent-IsAmong (ref ∷ refs) v q (first, p) h =
    elim (IsAmong-append (v, q) (with_parents ref.resources ref.variables) (variables_of refs) h) [
      | inl a ↦
          IsAmong-left q ref.resources (resources_of refs)
            (with_parents-resources ref.resources ref.variables v q first a)
      | inr b ↦ IsAmong-right q ref.resources (resources_of refs) (parent-IsAmong refs v q p b)
    ]

cmp_self : (q : Resource) → shaderres_cmp q q ≡ true
unfolding shaderres_cmp
cmp_self q = ground (arith, same_name_self q.name)

gathered-some : (q : Resource) (n : ℕ) (xs : List Resource) → gathered q (some n) xs ≢ none
unfolding gathered
gathered-some q n [] e = ground arith
gathered-some q n (x ∷ xs) e = elim (Bool-cases (shaderres_cmp q x)) [
  | inl t ↦ gathered-some q (with_stages (some n) x.used_stages) xs (rw t at e)
  | inr t ↦ gathered-some q n xs (rw t at e)
]

gathered_among :
    (q : Resource) (o : Option ℕ) (xs : List Resource) → IsAmong q xs → gathered q o xs ≢ none
unfolding gathered IsAmong
gathered_among q o [] h e = h
gathered_among q o (x ∷ xs) (inl here) e =
    let same : shaderres_cmp q x ≡ true = ap (shaderres_cmp q) (sym here) ∙ cmp_self q in
    gathered-some q (with_stages o x.used_stages) xs (rw same at e)
gathered_among q o (x ∷ xs) (inr h) e =
    gathered_among q (if shaderres_cmp q x then some (with_stages o x.used_stages) else o) xs h e

-- The loop finds a resource that the table has.
find_parent_lem :
    (j before : ℕ) (rs : List Resource) (q : Resource)
    → stages_of q rs ≢ none
    → (k : ℕ) × (find_parent j before rs q ≡ j + k)
      × (k < length rs)
      × (shaderres_cmp (get_or rs k nothing) q ≡ true)
unfolding find_parent stages_of
find_parent_lem j before [] q h = absurd (h refl)
find_parent_lem j before (r ∷ rs) q h = elim (Bool-cases (shaderres_cmp r q)) [
  | inl e ↦ (zero, rw e (omega arith), omega arith, e)
  | inr e ↦
      let later : stages_of q rs ≢ none = λ n. elim (Bool-cases (shaderres_cmp q r)) [
        | inl t ↦ cc (e, cmp_sym q r t)
        | inr t ↦ h (if-false (some r.used_stages) (stages_of q rs) t ∙ n)
      ] in
      let (k, at, bound, same) = find_parent_lem (suc j) before rs q later in
      (suc k, rw e (at ∙ omega arith), omega arith, same)
]

create-variables :
    (refs : List Reflection) (p : Pipeline)
    → create_pipelinereflection refs ≡ written p
    → p.variables ≡ map (copy_variable p.resources) (merge_variables refs [])
unfolding create_pipelinereflection create_merged
create-variables refs p h = ground arith

-- Where create_pipelinereflection writes a pipeline within its arrays, and every variable of the
-- shaders has a resource of its shader, each variable it writes is one of the shaders' variables
-- but for its index, and the index finds a resource of the table that is the same as that
-- variable's own.
pub create_pipelinereflection-variables :
    (refs : List Reflection) (p : Pipeline) (w : Variable)
    → create_pipelinereflection refs ≡ written p
    → HaveParents refs
    → IsAmong w p.variables
    → (v : Variable) × (q : Resource) × IsAmong (v, q) (variables_of refs)
      × (w ≡ record v { parent_index = w.parent_index })
      × (w.parent_index < length p.resources)
      × (shaderres_cmp (get_or p.resources w.parent_index nothing) q ≡ true)
unfolding copy_variable
create_pipelinereflection-variables refs p w h parents among =
    let table = create-variables refs p h in
    let (x, merged, e) =
      IsAmong-map (copy_variable p.resources) w (merge_variables refs [])
        (subst (IsAmong w) table among) in
    let declared : IsAmong x (variables_of refs) =
      elim (IsAmong-add_all x (variables_of refs) []
        (subst (IsAmong x) (add_all-merge_variables refs []) merged)) [
          | inl a ↦ a
          | inr b ↦ absurd (unfold IsAmong in b)
        ] in
    let known : stages_of x.1 p.resources ≢ none = λ n.
      gathered_among x.1 none (resources_of refs) (parent-IsAmong refs x.0 x.1 parents declared)
        (sym ((create_pipelinereflection-resources refs p h).0 x.1) ∙ n) in
    let (k, at, bound, same) = find_parent_lem 0 x.0.parent_index p.resources x.1 known in
    let index : w.parent_index ≡ k = ap (λ v. v.parent_index) e ∙ at ∙ omega arith in
    (
      x.0,
      x.1,
      declared,
      e ∙ ap (λ i. record x.0 { parent_index = i }) (sym (ap (λ v. v.parent_index) e)),
      subst (λ (n : ℕ). n < length p.resources) (sym index) bound,
      subst (λ n. shaderres_cmp (get_or p.resources n nothing) x.1 ≡ true) (sym index) same,
    )
