-- ===== src/Graphics/Reflection/Tests.antt =====
-- A vertex and a fragment shader that share a buffer, merged.
use tcengine.Base.{ℕ, ◌≡◌, ◌<◌, refl, inl, arith, true, none, List, [], ◌∷◌, length, get_or}
use tcengine.Graphics.Reflection.{
  Resource, Variable, Reflection, Pipeline, same_name, shaderres_cmp, shadervar_cmp, check_stages,
  add_resource, add_resources, add_variable, add_variables, nothing, merge_resources,
  merge_variables, copy_resource, copy_variable, find_parent, stage_index,
  create_pipelinereflection, create_merged, written,
}
use tcengine.Graphics.Reflection.Resources.{gathered, resources_of, stages_of}
use tcengine.Graphics.Reflection.Distinct.{AreDistinct, create_pipelinereflection-resources}
use tcengine.Graphics.Reflection.Variables.{
  HaveParents, InRange, variables_of, create_pipelinereflection-variables,
}
use tcengine.Graphics.Reflection.Among.{IsAmong}

abbrev buffer : ℕ → Resource
buffer stage = record {
  kind = 3;
  group = 0;
  reg = 1;
  size = 64;
  used_stages = stage;
  name = 99 ∷ 98 ∷ [];
  name_len = 2;
  dim = 0;
}

abbrev image : ℕ → Resource
image stage = record {
  kind = 5;
  group = 1;
  reg = 0;
  size = 1;
  used_stages = stage;
  name = 116 ∷ [];
  name_len = 1;
  dim = 2;
}

abbrev matrix : ℕ → Variable
matrix parent = record {
  name = 109 ∷ [];
  parent_index = parent;
  offset = 0;
  size = 64;
  name_len = 1;
}

abbrev shaders : List Reflection
shaders =
    record { resources = buffer 1 ∷ []; variables = matrix 0 ∷ []; stage = 1 }
    ∷ record { resources = image 16 ∷ buffer 16 ∷ []; variables = matrix 1 ∷ []; stage = 16 }
    ∷ []

abbrev merged : Pipeline
merged = record {
  stages = 17;
  reflections = shaders;
  vertex = 0;
  hull = 4294967295;
  domain = 4294967295;
  geometry = 4294967295;
  pixel = 1;
  resources = buffer 17 ∷ image 16 ∷ [];
  variables = matrix 0 ∷ [];
}

shaders_run : create_pipelinereflection shaders ≡ written merged
unfolding create_pipelinereflection create_merged check_stages stage_index merge_resources
    merge_variables add_resources add_resource add_variables add_variable shaderres_cmp
    shadervar_cmp same_name copy_resource copy_variable find_parent
shaders_run = refl

create_pipelinereflection-resources_example :
    ((r : Resource) → stages_of r merged.resources ≡ gathered r none (resources_of shaders))
    × AreDistinct merged.resources
create_pipelinereflection-resources_example =
    create_pipelinereflection-resources shaders merged shaders_run

shaders-HaveParents : HaveParents shaders
unfolding HaveParents InRange
shaders-HaveParents = ((omega arith, tt), ((omega arith, tt), tt))

matrix-IsAmong : IsAmong (matrix 0) merged.variables
unfolding IsAmong
matrix-IsAmong = inl refl

create_pipelinereflection-variables_example :
    (v : Variable) × (q : Resource) × IsAmong (v, q) (variables_of shaders)
    × (matrix 0 ≡ record v { parent_index = 0 })
    × (0 < length merged.resources)
    × (shaderres_cmp (get_or merged.resources 0 nothing) q ≡ true)
create_pipelinereflection-variables_example =
    create_pipelinereflection-variables shaders merged (matrix 0) shaders_run shaders-HaveParents
      matrix-IsAmong
