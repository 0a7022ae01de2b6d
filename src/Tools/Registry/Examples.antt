-- ===== src/Tools/Registry/Examples.antt =====
-- Two registries that share a name.
use py_tui_kairo.Common.{◌≡◌, refl, some, List, [], ◌∷◌, String}
use py_tui_kairo.Common.Dict.{Dict, get, put}
use py_tui_kairo.Contracts.Json.{no_member}
use py_tui_kairo.Contracts.Tools.{ToolDescriptor}
use py_tui_kairo.Tools.Registry.{add_tools, builtin, composite}
use py_tui_kairo.Tools.Registry.Merge.{IsConsistent, composite-IsConsistent, builtin-IsConsistent}

abbrev tool : String → String → ToolDescriptor
tool name source = record {
  name = name;
  description = "";
  parameters_schema = no_member;
  permissions = [];
  source = source;
  manifest_digest = "";
}

abbrev as_is : ToolDescriptor → ToolDescriptor
as_is t = t

abbrev first_tools : List ToolDescriptor
first_tools = tool "read" "builtin" ∷ tool "write" "builtin" ∷ []

abbrev first_dict : Dict ToolDescriptor
first_dict = ("read", tool "read" "builtin") ∷ ("write", tool "write" "builtin") ∷ []

abbrev later_tools : List ToolDescriptor
later_tools = tool "read" "server" ∷ []

abbrev later_dict : Dict ToolDescriptor
later_dict = ("read", tool "read" "server") ∷ []

first_added : add_tools as_is [] first_tools ≡ some first_dict
unfolding add_tools put get
first_added = refl

later_added : add_tools as_is [] later_tools ≡ some later_dict
unfolding add_tools put get
later_added = refl

composite-IsConsistent_example :
    IsConsistent as_is (composite (builtin as_is first_dict ∷ builtin as_is later_dict ∷ []))
composite-IsConsistent_example =
    composite-IsConsistent as_is (builtin as_is first_dict ∷ builtin as_is later_dict ∷ []) (
      (builtin-IsConsistent as_is first_tools first_dict first_added).1,
      ((builtin-IsConsistent as_is later_tools later_dict later_added).1, tt),
    )
