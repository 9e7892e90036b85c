-- ===== src/Schema/Attributes.antt =====
-- `setattr` on a dataclass instance, for the text parsers of products/venus_runtime.py and
-- products/jupiter_runtime.py in custom_components/marstek_ble.
use text.Mathlib.Text.{◌==◌ as str_eq}
use ha_marstek_ble.Prelude.{String, if◌then◌else◌}
use ha_marstek_ble.Converter.{Value}
use ha_marstek_ble.Schema.Tree.{leaf, plain, section, Fields, end, field}

-- `setattr(instance, attribute, value)` for an attribute that the instance has.
unfoldable pub set_attribute : String → Value → Fields → Fields
set_attribute attribute value end = end
set_attribute attribute value (field (leaf n sources old) rest) =
    if str_eq n attribute
    then field (leaf n sources value) rest
    else field (leaf n sources old) (set_attribute attribute value rest)
set_attribute attribute value (field (plain n old) rest) =
    if str_eq n attribute
    then field (plain n value) rest
    else field (plain n old) (set_attribute attribute value rest)
set_attribute attribute value (field s rest) = field s (set_attribute attribute value rest)

-- The same for `data.<name>.<attribute>`.
unfoldable pub set_in : String → String → Value → Fields → Fields
unfolding set_attribute
set_in name attribute value end = end
set_in name attribute value (field (section n offsets fs) rest) =
    if str_eq n name
    then field (section n offsets (set_attribute attribute value fs)) rest
    else field (section n offsets fs) (set_in name attribute value rest)
set_in name attribute value (field s rest) = field s (set_in name attribute value rest)
