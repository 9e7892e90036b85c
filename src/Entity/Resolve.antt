-- ===== src/Entity/Resolve.antt =====
-- The values of the entities that `_collect` of custom_components/marstek_ble/entity.py binds.
use ha_marstek_ble.Prelude.{
  ℕ, zero, suc, ◌<◌, String, Option, none, some, List, [], ◌∷◌, ◌++◌, ◌≡◌, refl, ap, ◌∙◌, arith,
  get_elem?, length, ℤ,
}
use ha_marstek_ble.Result.{ok, >>=-ok}
use ha_marstek_ble.Converter.{null, bool, int, real, text, ints, reals}
use ha_marstek_ble.Schema.Tree.{PathElement, DataPath}
use ha_marstek_ble.Entity.{
  Content, plain, nested, listed, Instance, end, attribute, Items, stop, item, EntityBinding,
  resolve, get_attribute, subscript, step, real_value, count, PresenceBinding, len, value_from,
  item_at, item_count,
}
use ha_marstek_ble.Entity.Plan.{StrDict}

-- The names of the fields `rest` of an instance lead to their values.
abbrev pub IsNamed : Instance → Instance → Type 0
IsNamed current end = Unit
IsNamed current (attribute data_field value rest) =
    (get_attribute current data_field.name ≡ ok value) × IsNamed current rest

-- No instance in a value has two fields of one name.
unfoldable mutual
  pub HasDataclasses : Instance → Type 0
  HasDataclasses end = Unit
  HasDataclasses (attribute data_field value rest) = IsSound value × HasDataclasses rest

  pub IsSound : Content → Type 0
  IsSound (plain v) = Unit
  IsSound (nested fs) = IsNamed fs fs × HasDataclasses fs
  IsSound (listed items) = AreSound items

  pub AreSound : Items → Type 0
  AreSound stop = Unit
  AreSound (item value rest) = IsSound value × AreSound rest

-- A count of items that the instance has, above the item's number: above it where no count was configured.
abbrev pub IsCounted : Instance → StrDict ℤ → PresenceBinding → Type 0
IsCounted root configured p =
    (p.index < p.maximum_count)
    × (value : Content) × (n : ℕ) × (resolve (nested root) p.count_path ≡ ok value)
    × (count value p.maximum_count ≡ ok n)
    × (configured ≡ [] → p.index < n)

abbrev pub HasCount : Instance → StrDict ℤ → Option PresenceBinding → Type 0
HasCount root configured none = Unit
HasCount root configured (some p) = IsCounted root configured p

-- The entity reads a value from the instance, and its presence a count.
abbrev pub Reads : Instance → StrDict ℤ → EntityBinding → Type 0
Reads root configured e =
    ((v : Content) × (value_from e root ≡ ok v)) × HasCount root configured e.presence

pub ok_injective : {A : Type 0} (a b : A) → ok a ≡ ok b → a ≡ b
ok_injective a b e = cc

resolve-append :
    (value : Content) (path rest : DataPath) (v : Content)
    → resolve value path ≡ ok v
    → resolve value (path ++ rest) ≡ resolve v rest
unfolding resolve
resolve-append value [] rest v e = ap (λ (x : Content). resolve x rest) (ok_injective value v e)
resolve-append value (part ∷ path) rest v e =
    let (next, s, r) = >>=-ok (step value part) (λ x. resolve x path) v e in
    rw s (resolve-append next path rest v r)

pub resolve-name :
    (root current : Instance) (path : DataPath) (name : String) (v : Content)
    → resolve (nested root) path ≡ ok (nested current)
    → get_attribute current name ≡ ok v
    → resolve (nested root) (path ++ PathElement.name name ∷ []) ≡ ok v
unfolding resolve
resolve-name root current path name v r g =
    resolve-append (nested root) path (PathElement.name name ∷ []) (nested current) r ∙ rw g

pub resolve-index :
    (root : Instance) (path : DataPath) (i : ℕ) (value v : Content)
    → resolve (nested root) path ≡ ok value
    → subscript value i ≡ ok v
    → resolve (nested root) (path ++ PathElement.index i ∷ []) ≡ ok v
unfolding resolve
resolve-index root path i value v r g =
    resolve-append (nested root) path (PathElement.index i ∷ []) value r ∙ rw g

get_elem_below :
    {A : Type 0} (xs : List A) (i : ℕ) → i < length xs → (a : A) × (get_elem? xs i ≡ some a)
get_elem_below [] i h = absurd (omega arith)
get_elem_below (x ∷ xs) zero h = (x, refl)
get_elem_below (x ∷ xs) (suc i) h = get_elem_below xs i (omega arith)

item_at_below :
    (items : Items) (i : ℕ) → i < item_count items → (v : Content) × (item_at items i ≡ some v)
item_at_below stop i h = absurd (omega arith)
item_at_below (item x xs) zero h = (x, refl)
item_at_below (item x xs) (suc i) h = item_at_below xs i (omega arith)

-- A value has the items that its length counts.
pub subscript-len :
    (value : Content) (n i : ℕ)
    → len value ≡ ok n
    → i < n
    → (v : Content) × (subscript value i ≡ ok v)
unfolding len subscript
subscript-len (listed items) n i e h =
    let (v, f) = item_at_below items i (rw (ok_injective _ n e) h) in (v, rw f)
subscript-len (nested fs) n i e h = absurd cc
subscript-len (plain null) n i e h = absurd cc
subscript-len (plain (bool b)) n i e h = absurd cc
subscript-len (plain (int z)) n i e h = absurd cc
subscript-len (plain (real z d)) n i e h = absurd cc
subscript-len (plain (text t)) n i e h =
    let (v, f) = get_elem_below t i (rw (ok_injective _ n e) h) in (plain (text (v ∷ [])), rw f)
subscript-len (plain (ints vs)) n i e h =
    let (v, f) = get_elem_below vs i (rw (ok_injective _ n e) h) in (plain (int v), rw f)
subscript-len (plain (reals vs)) n i e h =
    let (v, f) = get_elem_below vs i (rw (ok_injective _ n e) h) in (real_value v, rw f)
