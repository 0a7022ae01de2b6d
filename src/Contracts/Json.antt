-- ===== src/Contracts/Json.antt =====
-- kairo_kernel/contracts/json.py: immutable JSON values.
use Prim.Native.Nat.{ℕ}
use Prim.Native.String.{String}
use mathlib.Core.Bool.{Bool}
use package.text.Mathlib.Text.{◌==◌ as str_eq}
use py_tui_kairo.Common.{if◌then◌else◌}

-- An IEEE double as its 64 bits.
pub record Float : Type 0 where
  pub bits : ℕ

mutual
  pub data JsonValue : Type 0 where
    null : JsonValue
    boolean : Bool → JsonValue
    -- An integer by its sign (`true` for minus) and magnitude.
    integer : Bool → ℕ → JsonValue
    float : Float → JsonValue
    text : String → JsonValue
    array : JsonItems → JsonValue
    object : JsonMembers → JsonValue

  pub data JsonItems : Type 0 where
    no_item : JsonItems
    item : JsonValue → JsonItems → JsonItems

  pub data JsonMembers : Type 0 where
    no_member : JsonMembers
    member : String → JsonValue → JsonMembers → JsonMembers

-- `JsonObject` is a tuple of members.
abbrev pub JsonObject : Type 0
JsonObject = JsonMembers

-- JsonObject.from_pairs((key, value))
abbrev pub from_pair : String → JsonValue → JsonObject
from_pair k v = member k v no_member

-- JsonObject.get: the first member of the key, or the default.
unfoldable pub get_member : String → JsonValue → JsonObject → JsonValue
get_member k default no_member = default
get_member k default (member j v rest) = if str_eq j k then v else get_member k default rest
