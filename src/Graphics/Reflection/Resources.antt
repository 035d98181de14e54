-- ===== src/Graphics/Reflection/Resources.antt =====
-- The merged resources, compared with what the stages use.
use tcengine.Base.{ℕ, bit_or, ◌≡◌, refl, sym, ap, ◌∙◌, arith, true}
use tcengine.Base.{Option, none, some, List, [], ◌∷◌, ◌++◌, map, if◌then◌else◌}
use tcengine.Graphics.Reflection.{
  Resource, Reflection, same_name, shaderres_cmp, add_resource, add_resources, merge_resources,
  copy_resource,
}

same_name_eq : (s t : List ℕ) → same_name s t ≡ true → s ≡ t
unfolding same_name
same_name_eq [] [] h = refl
same_name_eq [] (c ∷ t) h = absurd (ground arith)
same_name_eq (b ∷ s) [] h = absurd (ground arith)
same_name_eq (b ∷ s) (c ∷ t) h = ground (arith, same_name_eq s t)

pub same_name_self : (s : List ℕ) → same_name s s ≡ true
unfolding same_name
same_name_self [] = refl
same_name_self (b ∷ s) = ground (arith, same_name_self s)

-- Two resources that are the same stand in for each other.
pub cmp_right :
    (r x u : Resource) → shaderres_cmp x u ≡ true → shaderres_cmp r x ≡ shaderres_cmp r u
unfolding shaderres_cmp
cmp_right r x u h = ground (arith, same_name_eq x.name u.name)

pub cmp_sym : (x u : Resource) → shaderres_cmp x u ≡ true → shaderres_cmp u x ≡ true
unfolding shaderres_cmp
cmp_sym x u h = ground (arith, same_name_eq x.name u.name, same_name_self x.name)

-- The stages that an entry for `r` has, in the loop's arrays.
unfoldable pub usage_of : Resource → List (Resource × ℕ) → Option ℕ
usage_of r [] = none
usage_of r ((u, usage) ∷ us) = if shaderres_cmp r u then some usage else usage_of r us

abbrev pub with_stages : Option ℕ → ℕ → ℕ
with_stages none n = n
with_stages (some m) n = bit_or m n

-- What it should be: the stages of all resources that are the same as `r`.
unfoldable pub gathered : Resource → Option ℕ → List Resource → Option ℕ
gathered r before [] = before
gathered r before (x ∷ xs) =
    gathered r (if shaderres_cmp r x then some (with_stages before x.used_stages) else before) xs

usage_of-add_resource :
    (r x : Resource) (us : List (Resource × ℕ))
    → usage_of r (add_resource x us) ≡ (
        if shaderres_cmp r x
        then some (with_stages (usage_of r us) x.used_stages)
        else usage_of r us)
unfolding usage_of add_resource
usage_of-add_resource r x [] = refl
usage_of-add_resource r x ((u, n) ∷ us) = ground (
  arith,
  usage_of-add_resource r x us,
  cmp_right r x u,
  cmp_right r u x,
  cmp_right x r u,
  cmp_sym r x,
  cmp_sym x r,
)

usage_of-add_resources :
    (r : Resource) (xs : List Resource) (us : List (Resource × ℕ))
    → usage_of r (add_resources xs us) ≡ gathered r (usage_of r us) xs
unfolding add_resources gathered
usage_of-add_resources r [] us = refl
usage_of-add_resources r (x ∷ xs) us =
    usage_of-add_resources r xs (add_resource x us)
    ∙ ap (λ o. gathered r o xs) (usage_of-add_resource r x us)

-- All resources of the stages, in order.
unfoldable pub resources_of : List Reflection → List Resource
resources_of [] = []
resources_of (ref ∷ refs) = ref.resources ++ resources_of refs

gathered-append :
    (r : Resource) (before : Option ℕ) (xs ys : List Resource)
    → gathered r before (xs ++ ys) ≡ gathered r (gathered r before xs) ys
unfolding gathered
gathered-append r before [] ys = refl
gathered-append r before (x ∷ xs) ys =
    gathered-append r
      (if shaderres_cmp r x then some (with_stages before x.used_stages) else before) xs ys

pub usage_of-merge_resources :
    (r : Resource) (refs : List Reflection) (us : List (Resource × ℕ))
    → usage_of r (merge_resources refs us) ≡ gathered r (usage_of r us) (resources_of refs)
unfolding merge_resources resources_of gathered
usage_of-merge_resources r [] us = refl
usage_of-merge_resources r (ref ∷ refs) us =
    usage_of-merge_resources r refs (add_resources ref.resources us)
    ∙ ap (λ o. gathered r o (resources_of refs)) (usage_of-add_resources r ref.resources us)
    ∙ sym (gathered-append r (usage_of r us) ref.resources (resources_of refs))

-- The stages that the merged table has for `r`.
unfoldable pub stages_of : Resource → List Resource → Option ℕ
stages_of r [] = none
stages_of r (u ∷ us) = if shaderres_cmp r u then some u.used_stages else stages_of r us

pub cmp-copy_resource :
    (r u : Resource) (n : ℕ) → shaderres_cmp r (copy_resource (u, n)) ≡ shaderres_cmp r u
unfolding shaderres_cmp copy_resource
cmp-copy_resource r u n = refl

copied :
    (r u : Resource) (n : ℕ) (o : Option ℕ)
    → (if shaderres_cmp r (copy_resource (u, n))
        then some (copy_resource (u, n)).used_stages
        else o)
      ≡ (if shaderres_cmp r u then some n else o)
unfolding copy_resource shaderres_cmp
copied r u n o = refl

pub stages_of-copy :
    (r : Resource) (us : List (Resource × ℕ)) → stages_of r (map copy_resource us) ≡ usage_of r us
unfolding stages_of usage_of
stages_of-copy r [] = refl
stages_of-copy r ((u, n) ∷ us) =
    ap
      (λ o.
        if shaderres_cmp r (copy_resource (u, n))
        then some (copy_resource (u, n)).used_stages
        else o)
      (stages_of-copy r us)
    ∙ copied r u n (usage_of r us)
