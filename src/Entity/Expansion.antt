-- ===== src/Entity/Expansion.antt =====
-- `ProductProfile.detect_expansion_increases` and `_find_increases` of
-- custom_components/marstek_ble/entity.py.
use Prim.Native.Char.{code}
use Prim.Native.String.{◌++◌ as str_append}
use ha_marstek_ble.Prelude.{
  ℕ, ◌+◌, String, Option, none, some, List, [], ◌∷◌, ◌++◌, ltb, ◌==◌, if◌then◌else◌,
}
use ha_marstek_ble.Result.{Result, ok, ◌>>=◌}
use ha_marstek_ble.Schema.Tree.{PathElement, DataPath}
use ha_marstek_ble.ProductRuntime.{path_key}
use ha_marstek_ble.Entity.{
  RepeatedSectionSpec, Content, plain, nested, listed, Instance, end, attribute, Items, stop, item,
  active_count, len,
}
use ha_marstek_ble.Entity.Plan.{ProductProfile, EntityPlan, StrDict, get_key}

pub record ExpansionChange : Type 0 where
  pub path : DataPath
  pub configured_count : ℕ
  pub discovered_count : ℕ
  pub maximum_count : ℕ
  pub issue_id : String

-- `text.replace(".", "_")`
unfoldable pub replace_dots : String → String
replace_dots String.[] = ""
replace_dots (String.◌∷◌ c s) =
    let rest = replace_dots s in if code c == b'.' then str_append "_" rest else String.◌∷◌ c rest

abbrev pub issue_name : String → String → String
issue_name product_id path_name =
    str_append product_id
      (str_append "_" (str_append (replace_dots path_name) "_expansion_count_increased"))

abbrev pub or_else : Option ℕ → ℕ → ℕ
or_else none n = n
or_else (some m) n = m

abbrev pub change_of : DataPath → ℕ → ℕ → RepeatedSectionSpec → String → List ExpansionChange
change_of path old discovered spec product_id =
    if ltb old discovered
    then record {
      path = path;
      configured_count = old;
      discovered_count = discovered;
      maximum_count = spec.count;
      issue_id = issue_name product_id (path_key path);
    }
      ∷ []
    else []

-- `_find_increases` over the fields `rest` of `current`, the value of one field, and the items of
-- a repeated one from number `i` on, with the changes in their order. What has a length can be
-- iterated over.
unfoldable mutual
  unfolding active_count get_key path_key replace_dots len

  pub find_increases :
      Instance → Instance → DataPath → StrDict ℕ → String → Result (List ExpansionChange)
  find_increases current end path configured product_id = ok []
  find_increases current (attribute data_field value rest) path configured product_id = do
    let field_path = path ++ PathElement.name data_field.name ∷ []
    found ← find_in_value current data_field.repeated_section value field_path configured product_id
    more ← find_increases current rest path configured product_id
    ok (found ++ more)

  pub find_in_value :
      Instance
      → Option RepeatedSectionSpec
      → Content
      → DataPath
      → StrDict ℕ
      → String
      → Result (List ExpansionChange)
  find_in_value current none (plain v) path configured product_id = ok []
  find_in_value current none (listed items) path configured product_id = ok []
  find_in_value current none (nested fs) path configured product_id =
      find_increases fs fs path configured product_id
  find_in_value current (some spec) (listed items) path configured product_id = do
    discovered ← active_count current spec
    let old = or_else (get_key (path_key path) configured) discovered
    more ← find_in_items items path 0 configured product_id
    ok (change_of path old discovered spec product_id ++ more)
  find_in_value current (some spec) (plain v) path configured product_id = do
    discovered ← active_count current spec
    let old = or_else (get_key (path_key path) configured) discovered
    number ← len (plain v)
    ok (change_of path old discovered spec product_id)
  find_in_value current (some spec) (nested fs) path configured product_id = do
    discovered ← active_count current spec
    let old = or_else (get_key (path_key path) configured) discovered
    number ← len (nested fs)
    ok (change_of path old discovered spec product_id)

  pub find_in_items : Items → DataPath → ℕ → StrDict ℕ → String → Result (List ExpansionChange)
  find_in_items stop path i configured product_id = ok []
  find_in_items (item (plain v) rest) path i configured product_id =
      find_in_items rest path (i + 1) configured product_id
  find_in_items (item (listed items) rest) path i configured product_id =
      find_in_items rest path (i + 1) configured product_id
  find_in_items (item (nested fs) rest) path i configured product_id = do
    found ← find_increases fs fs (path ++ PathElement.index i ∷ []) configured product_id
    more ← find_in_items rest path (i + 1) configured product_id
    ok (found ++ more)

-- `ProductProfile.detect_expansion_increases`
unfoldable pub detect_expansion_increases :
    ProductProfile → Instance → EntityPlan → Result (List ExpansionChange)
unfolding find_increases
detect_expansion_increases profile root plan =
    find_increases root root [] plan.repeated_counts profile.product_id
