-- ===== src/Graphics/Reflection.antt =====
-- create_pipelinereflection of src/graphics/graphics.c: the reflections of the shaders of a pipeline,
-- merged. Names are their bytes.
pub mod Resources
pub mod Distinct
pub mod Among
pub mod Variables
mod Tests
use tcengine.Base.{
  ℕ, zero, suc, ◌+◌, ◌-◌, ◌^◌, bit_and, bit_or, Bool, true, false, not, ◌&&◌, Option, none, some,
}
use tcengine.Base.{List, [], ◌∷◌, ◌++◌, map, ◌==◌, if◌then◌else◌, length, leb, get_or}

pub record Resource : Type 0 where
  pub kind : ℕ
  pub group : ℕ
  pub reg : ℕ
  pub size : ℕ
  pub used_stages : ℕ
  pub name : List ℕ
  pub name_len : ℕ
  pub dim : ℕ

pub record Variable : Type 0 where
  pub name : List ℕ
  pub parent_index : ℕ
  pub offset : ℕ
  pub size : ℕ
  pub name_len : ℕ

pub record Reflection : Type 0 where
  pub resources : List Resource
  pub variables : List Variable
  pub stage : ℕ

pub record Pipeline : Type 0 where
  pub stages : ℕ
  pub reflections : List Reflection
  pub vertex : ℕ
  pub hull : ℕ
  pub domain : ℕ
  pub geometry : ℕ
  pub pixel : ℕ
  pub resources : List Resource
  pub variables : List Variable

-- `strcmp` gives 0.
pub same_name : List ℕ → List ℕ → Bool
same_name [] [] = true
same_name [] (c ∷ t) = false
same_name (b ∷ s) [] = false
same_name (b ∷ s) (c ∷ t) = b == c && same_name s t

pub shaderres_cmp : Resource → Resource → Bool
shaderres_cmp a b =
    a.kind == b.kind
    && a.group == b.group
    && a.reg == b.reg
    && a.name_len == b.name_len
    && same_name a.name b.name

pub shadervar_cmp : Variable → Variable → Bool
shadervar_cmp a b =
    a.offset == b.offset && a.size == b.size && a.name_len == b.name_len && same_name a.name b.name

-- The check for stages that occur twice.
pub check_stages : (stages : ℕ) → List Reflection → Option ℕ
check_stages stages [] = some stages
check_stages stages (ref ∷ refs) =
    let rest = check_stages (bit_or stages ref.stage) refs in
    if bit_and stages ref.stage == 0 then rest else none

-- One turn of the loop over the resources of a stage: `unique_resources` with `shader_usage`.
pub add_resource : Resource → List (Resource × ℕ) → List (Resource × ℕ)
add_resource r [] = (r, r.used_stages) ∷ []
add_resource r ((u, usage) ∷ us) =
    if shaderres_cmp r u
    then (u, bit_or usage r.used_stages) ∷ us
    else (u, usage) ∷ add_resource r us

pub add_resources : List Resource → List (Resource × ℕ) → List (Resource × ℕ)
add_resources [] us = us
add_resources (r ∷ rs) us = add_resources rs (add_resource r us)

-- One turn of the loop over the variables: `uniqueVariable` with `uniqueVariableParent`.
pub add_variable : Variable → Resource → List (Variable × Resource) → List (Variable × Resource)
add_variable v p [] = (v, p) ∷ []
add_variable v p ((u, q) ∷ us) =
    if shadervar_cmp v u then (u, q) ∷ us else (u, q) ∷ add_variable v p us

-- What stands behind the end of an array.
abbrev pub nothing : Resource
nothing = record {
  kind = 0;
  group = 0;
  reg = 0;
  size = 0;
  used_stages = 0;
  name = [];
  name_len = 0;
  dim = 0;
}

pub add_variables :
    List Resource → List Variable → List (Variable × Resource) → List (Variable × Resource)
add_variables rs [] us = us
add_variables rs (v ∷ vs) us =
    add_variables rs vs (add_variable v (get_or rs v.parent_index nothing) us)

pub merge_resources : List Reflection → List (Resource × ℕ) → List (Resource × ℕ)
merge_resources [] us = us
merge_resources (ref ∷ refs) us = merge_resources refs (add_resources ref.resources us)

pub merge_variables : List Reflection → List (Variable × Resource) → List (Variable × Resource)
merge_variables [] us = us
merge_variables (ref ∷ refs) us =
    merge_variables refs (add_variables ref.resources ref.variables us)

pub copy_resource : Resource × ℕ → Resource
copy_resource (r, usage) = record r { used_stages = usage }

-- The loop that looks for the parent, from index `j` on.
pub find_parent : (j before : ℕ) → List Resource → Resource → ℕ
find_parent j before [] p = before
find_parent j before (r ∷ rs) p = if shaderres_cmp r p then j else find_parent (suc j) before rs p

pub copy_variable : List Resource → Variable × Resource → Variable
copy_variable rs (v, p) = record v { parent_index = find_parent 0 v.parent_index rs p }

-- Where a stage stands, `~0u` where it does not.
pub stage_index : (stage i before : ℕ) → List Reflection → ℕ
stage_index stage i before [] = before
stage_index stage i before (ref ∷ refs) =
    stage_index stage (suc i) (if ref.stage == stage then i else before) refs

-- The arrays on the stack: of resources and variables, and of the reflections of a pipeline.
abbrev pub max_entries : ℕ
max_entries = 512

abbrev pub max_stages : ℕ
max_stages = 5

-- For one shader or more, as an assertion asks: the function returns and writes nothing; it writes
-- behind the end of an array; or it writes a pipeline.
pub data Outcome : Type 0 where
  duplicate_stage : Outcome
  overrun : Outcome
  written : Pipeline → Outcome

-- The loops have filled the arrays, which they do not look at the ends of.
pub create_merged :
    (stages : ℕ) → List Reflection → List (Resource × ℕ) → List (Variable × Resource) → Outcome
create_merged stages refs unique_resources unique_variables =
    if leb (length refs) max_stages
      && (leb (length unique_resources) max_entries && leb (length unique_variables) max_entries)
    then (let resources = map copy_resource unique_resources in
        written (record {
          stages = stages;
          reflections = refs;
          vertex = stage_index 1 0 (2 ^ 32 - 1) refs;
          hull = stage_index 2 0 (2 ^ 32 - 1) refs;
          domain = stage_index 4 0 (2 ^ 32 - 1) refs;
          geometry = stage_index 8 0 (2 ^ 32 - 1) refs;
          pixel = stage_index 16 0 (2 ^ 32 - 1) refs;
          resources = resources;
          variables = map (copy_variable resources) unique_variables;
        }))
    else overrun

pub create_pipelinereflection : List Reflection → Outcome
create_pipelinereflection refs = elim (check_stages 0 refs) [
  | none ↦ duplicate_stage
  | some stages ↦ create_merged stages refs (merge_resources refs []) (merge_variables refs [])
]
