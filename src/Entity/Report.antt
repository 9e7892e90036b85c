-- ===== src/Entity/Report.antt =====
-- What there is to report of the repeated sections of an instance, as the specification of
-- `detect_expansion_increases` of custom_components/marstek_ble/entity.py.
use ha_marstek_ble.Prelude.{
  ℕ, ◌<◌, ◌≤◌, String, true, false, inl, inr, Option, none, some, List, [], ◌∷◌, ◌++◌, ◌≡◌, ◌⊎◌,
  refl, sym, subst, arith, ℤ, pos,
}
use ha_marstek_ble.Result.{value_error, type_error, ok, err, >>=-ok, or_raise}
use ha_marstek_ble.Text.Numerals.{parse_int}
use ha_marstek_ble.Converter.{null, bool, int, real, text, ints, reals}
use ha_marstek_ble.ProductRuntime.{path_key}
use ha_marstek_ble.Entity.{
  RepeatedSectionSpec, Content, plain, nested, listed, Instance, active_count, count_in, count,
  clamp, truncated, get_attribute,
}
use ha_marstek_ble.Entity.Resolve.{ok_injective}
use ha_marstek_ble.Entity.Counted.{clamp_below}
use ha_marstek_ble.Entity.Plan.{StrDict, get_key}
use ha_marstek_ble.Entity.Expansion.{ExpansionChange, issue_name}
use ha_marstek_ble.Entity.Sections.{Section, path_of}

-- The change that is reported of a section, from a configured to a discovered count.
abbrev pub change : String → Section → ℕ → ℕ → ExpansionChange
change product_id section old discovered = record {
  path = path_of section;
  configured_count = old;
  discovered_count = discovered;
  maximum_count = section.spec.count;
  issue_id = issue_name product_id (path_key (path_of section));
}

-- What is reported of a section with that many active items, when `o` is the count that the plan
-- has for it: one change when `o` is a lower count, nothing when it is not or there is none.
abbrev pub Reported : String → Section → ℕ → Option ℕ → List ExpansionChange → Type 0
Reported product_id section discovered none found = found ≡ []
Reported product_id section discovered (some old) found =
    (old < discovered) × (found ≡ change product_id section old discovered ∷ [])
    ⊎ (discovered ≤ old) × (found ≡ [])

-- The number of the section's active items: as many as its parent's count attribute holds, read as
-- a number that the section's count bounds, and all of them when it has no such attribute.
abbrev pub HasActive : Section → ℕ → Type 0
HasActive section n =
    (section.spec.active_count_attribute ≡ none) × (n ≡ section.spec.count)
    ⊎ (name : String) × (value : Content) × (section.spec.active_count_attribute ≡ some name)
      × (get_attribute section.parent name ≡ ok value)
      × (count value section.spec.count ≡ ok n)

-- The changes are those of the sections, one after the other: of each, the active items of its
-- parent are counted, and they are no more than the section has.
abbrev pub AreReported : StrDict ℕ → String → List Section → List ExpansionChange → Type 0
AreReported configured product_id [] changes = changes ≡ []
AreReported configured product_id (section ∷ rest) changes =
    (discovered : ℕ) × (found more : List ExpansionChange) × HasActive section discovered
    × (discovered ≤ section.spec.count)
    × Reported product_id section discovered (get_key (path_key (path_of section)) configured) found
    × AreReported configured product_id rest more
    × (changes ≡ found ++ more)

clamped : (z : ℤ) (maximum n : ℕ) → ok (clamp z maximum) ≡ ok n → n ≤ maximum
clamped z maximum n e = subst (λ (m : ℕ). m ≤ maximum) (ok_injective _ n e) (clamp_below z maximum)

count_below : (value : Content) (maximum n : ℕ) → count value maximum ≡ ok n → n ≤ maximum
unfolding count
count_below (plain null) maximum n e = omega (arith, ok_injective 0 n e)
count_below (plain (bool true)) maximum n e = clamped (pos 1) maximum n e
count_below (plain (bool false)) maximum n e = omega (arith, ok_injective 0 n e)
count_below (plain (int z)) maximum n e = clamped z maximum n e
count_below (plain (real z d)) maximum n e = clamped (truncated z d) maximum n e
count_below (plain (text t)) maximum n e =
    let (z, p, e₁) = >>=-ok (or_raise (parse_int t) value_error) _ n e in clamped z maximum n e₁
count_below (plain (ints vs)) maximum n e = absurd cc
count_below (plain (reals vs)) maximum n e = absurd cc
count_below (nested fs) maximum n e = absurd cc
count_below (listed items) maximum n e = absurd cc

count_in_below :
    (parent : Instance) (maximum n : ℕ) (o : Option String)
    → count_in parent maximum o ≡ ok n
    → n ≤ maximum
count_in_below parent maximum n none e = omega (arith, ok_injective maximum n e)
count_in_below parent maximum n (some name) e =
    let (value, g, k) = >>=-ok (get_attribute parent name) _ n e in count_below value maximum n k

pub refused : (changes : List ExpansionChange) → err type_error ≡ ok changes → ⊥
refused changes e = cc

-- `_active_count` returns at most the count of the section.
pub active_below :
    (parent : Instance) (spec : RepeatedSectionSpec) (n : ℕ)
    → active_count parent spec ≡ ok n
    → n ≤ spec.count
unfolding active_count
active_below parent spec n e = count_in_below parent spec.count n spec.active_count_attribute e

pub active_count-HasActive :
    (section : Section) (n : ℕ)
    → active_count section.parent section.spec ≡ ok n
    → HasActive section n
unfolding active_count
active_count-HasActive section n e = by_attribute section.spec.active_count_attribute refl e
  where
    by_attribute :
        (o : Option String)
        → section.spec.active_count_attribute ≡ o
        → count_in section.parent section.spec.count o ≡ ok n
        → HasActive section n
    by_attribute none a e = inl (a, sym (ok_injective _ n e))
    by_attribute (some name) a e =
        let (value, g, k) = >>=-ok (get_attribute section.parent name) _ n e in
        inr (name, value, a, g, k)
