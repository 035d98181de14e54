-- ===== src/Graphics/Reflection/Distinct.antt =====
-- The table of resources has every resource once.
use mathlib.Core.Path.{subst}
use tcengine.Base.{ℕ, bit_or, ◌≡◌, inl, inr, refl, sym, ap, ◌∙◌, arith, false, Bool-cases}
use tcengine.Base.{none, List, [], ◌∷◌, map}
use tcengine.Graphics.Reflection.{
  Resource, Reflection, shaderres_cmp, add_resource, add_resources, merge_resources, copy_resource,
  Pipeline, written, create_merged, create_pipelinereflection,
}
use tcengine.Graphics.Reflection.Resources.{
  cmp_sym, cmp-copy_resource, usage_of, gathered, stages_of, stages_of-copy, resources_of,
  usage_of-merge_resources,
}

-- No two resources of a table are the same.
pub Fresh : Resource → List Resource → Type 0
Fresh r [] = Unit
Fresh r (u ∷ us) = (shaderres_cmp r u ≡ false) × Fresh r us

pub AreDistinct : List Resource → Type 0
AreDistinct [] = Unit
AreDistinct (u ∷ us) = Fresh u us × AreDistinct us

add_resource-Fresh :
    (r x : Resource) (n : ℕ) (us : List (Resource × ℕ))
    → shaderres_cmp r x ≡ false
    → Fresh r (map copy_resource us)
    → Fresh r (map copy_resource (add_resource x us))
unfolding Fresh add_resource
add_resource-Fresh r x n [] h f = (cmp-copy_resource r x x.used_stages ∙ h, tt)
add_resource-Fresh r x n ((u, m) ∷ us) h (first, rest) = elim (Bool-cases (shaderres_cmp x u)) [
  | inl e ↦
      rw e (
        cmp-copy_resource r u (bit_or m x.used_stages) ∙ sym (cmp-copy_resource r u m) ∙ first,
        rest,
      )
  | inr e ↦ rw e (first, add_resource-Fresh r x n us h rest)
]

copied_left : (u v : Resource) (n : ℕ) → shaderres_cmp (copy_resource (u, n)) v ≡ shaderres_cmp u v
unfolding shaderres_cmp copy_resource
copied_left u v n = refl

Fresh-usage :
    (u : Resource) (m n : ℕ) (us : List Resource)
    → Fresh (copy_resource (u, m)) us
    → Fresh (copy_resource (u, n)) us
unfolding Fresh
Fresh-usage u m n [] f = tt
Fresh-usage u m n (v ∷ us) (first, rest) =
    (copied_left u v n ∙ sym (copied_left u v m) ∙ first, Fresh-usage u m n us rest)

cmp_not : (x u : Resource) → shaderres_cmp x u ≡ false → shaderres_cmp u x ≡ false
cmp_not x u h = ground (arith, cmp_sym u x)

add_resource-AreDistinct :
    (x : Resource) (us : List (Resource × ℕ))
    → AreDistinct (map copy_resource us)
    → AreDistinct (map copy_resource (add_resource x us))
unfolding AreDistinct Fresh add_resource
add_resource-AreDistinct x [] d = (tt, tt)
add_resource-AreDistinct x ((u, m) ∷ us) (first, rest) = elim (Bool-cases (shaderres_cmp x u)) [
  | inl e ↦ rw e (Fresh-usage u m (bit_or m x.used_stages) (map copy_resource us) first, rest)
  | inr e ↦ rw e (
    add_resource-Fresh (copy_resource (u, m)) x m us (copied_left u x m ∙ cmp_not x u e) first,
    add_resource-AreDistinct x us rest,
  )
]

add_resources-AreDistinct :
    (xs : List Resource) (us : List (Resource × ℕ))
    → AreDistinct (map copy_resource us)
    → AreDistinct (map copy_resource (add_resources xs us))
unfolding add_resources
add_resources-AreDistinct [] us d = d
add_resources-AreDistinct (x ∷ xs) us d =
    add_resources-AreDistinct xs (add_resource x us) (add_resource-AreDistinct x us d)

merge_resources-AreDistinct :
    (refs : List Reflection) (us : List (Resource × ℕ))
    → AreDistinct (map copy_resource us)
    → AreDistinct (map copy_resource (merge_resources refs us))
unfolding merge_resources
merge_resources-AreDistinct [] us d = d
merge_resources-AreDistinct (ref ∷ refs) us d =
    merge_resources-AreDistinct refs (add_resources ref.resources us)
      (add_resources-AreDistinct ref.resources us d)

-- What create_pipelinereflection writes as the table of resources, where it writes.
pub create-resources :
    (refs : List Reflection) (p : Pipeline)
    → create_pipelinereflection refs ≡ written p
    → p.resources ≡ map copy_resource (merge_resources refs [])
unfolding create_pipelinereflection create_merged
create-resources refs p h = ground arith

-- Where create_pipelinereflection writes a pipeline within its arrays, its table of resources
-- gives for every resource the stages of all resources of the shaders that are the same as it,
-- or-ed together, and none where there is none, and no two resources of the table are the same.
pub create_pipelinereflection-resources :
    (refs : List Reflection) (p : Pipeline)
    → create_pipelinereflection refs ≡ written p
    → ((r : Resource) → stages_of r p.resources ≡ gathered r none (resources_of refs))
      × AreDistinct p.resources
unfolding usage_of AreDistinct
create_pipelinereflection-resources refs p h =
    let table = create-resources refs p h in
    (
      λ r.
          ap (stages_of r) table
          ∙ stages_of-copy r (merge_resources refs [])
          ∙ usage_of-merge_resources r refs [],
      subst AreDistinct (sym table) (merge_resources-AreDistinct refs [] tt),
    )
