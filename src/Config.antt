-- ===== src/Config.antt =====
-- The class Config of config/config.h and config/config.cpp: the registry of named values. The objects
-- ConfigData stand at addresses; here one is its name, its description and the name of the type of its
-- value, and Config/Data is the value itself. The locks let one call in at a time.
pub mod Data
pub mod Registry
mod Tests
use lo_netfw.Base.{
  ℕ, ◌+◌, Bool, true, false, not, ◌&&◌, ◌||◌, List, [], ◌∷◌, ◌++◌, Option, none, some, length,
  get_elem?, leb, ◌==◌, if◌then◌else◌,
}
use lo_netfw.Util.Text.{Text, to_lower}
use lo_netfw.Util.Text.Dict.{same_text, lookup, insert}

-- util::isValidParamName: letters, digits, `_` and `.`.
abbrev pub is_param_char : ℕ → Bool
is_param_char ch =
    (leb 97 ch && leb ch 122)
    || ((leb 65 ch && leb ch 90) || ((leb 48 ch && leb ch 57) || (ch == 95 || ch == 46)))

unfoldable pub is_valid_param_name : Text → Bool
is_valid_param_name [] = true
is_valid_param_name (ch ∷ str) = is_param_char ch && is_valid_param_name str

-- A ConfigDataBase, with its `getType()`.
pub record ConfigDataBase : Type 0 where
  pub name : Text
  pub description : Text
  pub type_name : Text

-- ConfigDataBase::ConfigDataBase
abbrev pub data_of : Text → Text → Text → ConfigDataBase
data_of type_name name description = record {
  name = to_lower name;
  description = description;
  type_name = type_name;
}

pub record Config : Type 0 where
  pub datas : List (Text × ℕ)
  pub heap : List ConfigDataBase

abbrev pub empty : Config
empty = record { datas = []; heap = [] }

-- `dynamic_pointer_cast` of the object at an address to the ConfigData of a type; `none` for null.
abbrev pub cast_as : Text → ℕ → Option ConfigDataBase → Option ℕ
cast_as type_name p none = none
cast_as type_name p (some d) = if same_text d.type_name type_name then some p else none

abbrev pub cast : Config → Text → ℕ → Option ℕ
cast c type_name p = cast_as type_name p (get_elem? c.heap p)

-- Config::setData with a value of a type: the object that it gives.
abbrev pub set_found : Text → Text → Text → Option ℕ → Config → Option ℕ × Config
set_found type_name name description (some p) c = (cast c type_name p, c)
set_found type_name name description none c = (
  some (length c.heap),
  record c {
    datas = insert (to_lower name) (length c.heap) c.datas;
    heap = c.heap ++ data_of type_name name description ∷ [];
  },
)

unfoldable pub set_data : Text → Text → Text → Config → Option ℕ × Config
unfolding to_lower is_valid_param_name
set_data type_name name description c =
    if not (is_valid_param_name (to_lower name))
    then (none, c)
    else set_found type_name name description (lookup (to_lower name) c.datas) c

-- Config::setData of an object that stands at an address; what it logs aside, a name that is there
-- changes nothing.
abbrev pub set_base_found : ℕ → Text → Option ℕ → Config → Config
set_base_found p name (some q) c = c
set_base_found p name none c = record c { datas = insert (to_lower name) p c.datas }

abbrev pub set_base_of : ℕ → Option ConfigDataBase → Config → Config
set_base_of p none c = c
set_base_of p (some d) c =
    if not (is_valid_param_name (to_lower d.name))
    then c
    else set_base_found p d.name (lookup (to_lower d.name) c.datas) c

unfoldable pub set_data_base : ℕ → Config → Config
unfolding to_lower is_valid_param_name
set_data_base p c = set_base_of p (get_elem? c.heap p) c

-- Config::getData of a type
abbrev pub get_found : Text → Option ℕ → Config → Option ℕ
get_found type_name none c = none
get_found type_name (some p) c = cast c type_name p

unfoldable pub get_data : Text → Text → Config → Option ℕ
unfolding to_lower is_valid_param_name
get_data type_name name c =
    if not (is_valid_param_name (to_lower name))
    then none
    else get_found type_name (lookup (to_lower name) c.datas) c

-- Config::getDataBase takes the name as it is.
unfoldable pub get_data_base : Text → Config → Option ℕ
get_data_base name c = lookup name c.datas
