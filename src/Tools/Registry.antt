-- ===== src/Tools/Registry.antt =====
-- kairo_kernel/tools/registry.py: BuiltinToolRegistry and CompositeToolRegistry. A tool is what the caller supplies, with
-- its descriptor.
pub mod Merge
mod Examples
use Prim.Native.String.{◌++◌ as append_text}
use py_tui_kairo.Common.{
  ℕ, ◌≡◌, Bool, true, false, ◌||◌, Option, none, some, List, [], ◌∷◌, ◌++◌, map, String, str_eq,
  any_of, if◌then◌else◌,
}
use py_tui_kairo.Common.Dict.{Dict, get, put, contains}
use py_tui_kairo.Contracts.Enums.{ErrorCode}
use py_tui_kairo.Contracts.Errors.{KernelResult, KernelError, success, failure, kernel_error}
use py_tui_kairo.Contracts.Tools.{ToolDescriptor}

-- What `list` and `get` give.
pub record ToolRegistry (Tool : Type 0) : Type 0 where
  pub list : List ToolDescriptor
  pub get : String → KernelResult Tool

abbrev pub tool_not_found : String → KernelError
tool_not_found name = kernel_error ErrorCode.tool_not_found (append_text "Tool not found: " name)

abbrev pub found : {Tool : Type 0} → String → Option Tool → KernelResult Tool
found name none = failure (tool_not_found name)
found name (some tool) = success tool

module _ {Tool : Type 0} (descriptor : Tool → ToolDescriptor) where
  -- `BuiltinToolRegistry.__init__`; none is its ValueError.
  unfoldable pub add_tools : Dict Tool → List Tool → Option (Dict Tool)
  add_tools d [] = some d
  add_tools d (tool ∷ tools) =
      let name = (descriptor tool).name in
      let rest = add_tools (put name tool d) tools in
      if str_eq name "" || contains name d then none else rest

  -- `list` and `get` of the built-in registry
  unfoldable pub builtin : Dict Tool → ToolRegistry Tool
  builtin d = record {
    list = map (λ (p : String × Tool). descriptor p.1) d;
    get = λ name. found name (get name d);
  }

abbrev pub named : String → ToolDescriptor → Bool
named name d = str_eq d.name name

-- `descriptors.setdefault(descriptor.name, descriptor)`: the dict is the list of its values, whose keys are their names.
unfoldable pub setdefault : List ToolDescriptor → ToolDescriptor → List ToolDescriptor
setdefault ds d = if any_of (named d.name) ds then ds else ds ++ d ∷ []

unfoldable pub add_all : List ToolDescriptor → List ToolDescriptor → List ToolDescriptor
unfolding setdefault
add_all ds [] = ds
add_all ds (x ∷ xs) = add_all (setdefault ds x) xs

unfoldable pub merged :
    {Tool : Type 0} → List ToolDescriptor → List (ToolRegistry Tool) → List ToolDescriptor
unfolding add_all
merged ds [] = ds
merged ds (r ∷ rs) = merged (add_all ds r.list) rs

abbrev pub or_next : {Tool : Type 0} → KernelResult Tool → KernelResult Tool → KernelResult Tool
or_next (success tool) next = success tool
or_next (failure error) next = next

unfoldable pub get_first : {Tool : Type 0} → String → List (ToolRegistry Tool) → KernelResult Tool
get_first name [] = failure (tool_not_found name)
get_first name (r ∷ rs) = or_next (r.get name) (get_first name rs)

-- `list` and `get` of the composite registry
unfoldable pub composite : {Tool : Type 0} → List (ToolRegistry Tool) → ToolRegistry Tool
unfolding merged get_first
composite rs = record { list = merged [] rs; get = λ name. get_first name rs }

-- `reload` of the composite registry: what the registries' reloads give, and its list after them.
unfoldable pub reload_all :
    List (KernelResult (List ToolDescriptor))
    → List ToolDescriptor
    → KernelResult (List ToolDescriptor)
reload_all [] after = success after
reload_all (success ds ∷ rs) after = reload_all rs after
reload_all (failure error ∷ rs) after = failure error
