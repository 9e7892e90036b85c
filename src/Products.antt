-- ===== src/Products.antt =====
-- custom_components/marstek_ble/products/__init__.py: the registry of enabled products.
use text.Mathlib.Text.{◌==◌ as str_eq, starts_with}
use Prim.Native.Char.{code}
use Prim.Native.String.append
use Prim.Native.String.{◌++◌ as str_append}
use text.Mathlib.TextEquality.{starts_with_iff}
use ha_marstek_ble.Prelude.{
  ℕ, zero, suc, String, Bool, true, false, Option, none, some, List, [], ◌∷◌, ◌++◌, ◌≡◌, ◌≢◌, refl,
  sym, ◌∙◌, ap, subst, inl, inr, Bool-cases, if◌then◌else◌, get_elem?, arith,
}
use ha_marstek_ble.Struct.{codes}
use ha_marstek_ble.ProductRuntime.{ProductRuntime, matches_name}
use ha_marstek_ble.Venus.Runtime.{venus_runtime, venus_profile}
use ha_marstek_ble.Jupiter.Runtime.{jupiter_runtime, jupiter_profile}

-- `RUNTIME_PRODUCTS`
abbrev pub runtime_products : List ProductRuntime
runtime_products = venus_runtime ∷ jupiter_runtime ∷ []

-- `next((runtime for runtime in ... if test(runtime)), None)`
abbrev first_product : (ProductRuntime → Bool) → List ProductRuntime → Option ProductRuntime
first_product test [] = none
first_product test (runtime ∷ rest) = if test runtime then some runtime else first_product test rest

-- `runtime_for_id`
unfoldable pub runtime_for_id : String → Option ProductRuntime
runtime_for_id product_id =
    first_product (λ runtime. str_eq runtime.profile.product_id product_id) runtime_products

-- `runtime_for_name`
unfoldable pub runtime_for_name : Option String → Option ProductRuntime
unfolding matches_name
runtime_for_name local_name =
    first_product (λ runtime. matches_name runtime local_name) runtime_products

codes-append : (s t : String) → codes (str_append s t) ≡ codes s ++ codes t
codes-append String.[] t = ap codes (append.nil t)
codes-append (String.◌∷◌ c s) t =
    ap codes (append.cons c s t) ∙ ap (λ (l : List ℕ). code c ∷ l) (codes-append s t)

-- Texts that begin with one name have the letters of both prefixes.
letter :
    (i : ℕ) (name p q : String)
    → starts_with name p ≡ true
    → starts_with name q ≡ true
    → (u : List ℕ) × (v : List ℕ) × (get_elem? (codes p ++ u) i ≡ get_elem? (codes q ++ v) i)
letter i name p q a b =
    let (u, d) = (starts_with_iff name p).0 a in
    let (v, e) = (starts_with_iff name q).0 b in
    (
      codes u,
      codes v,
      ap (λ (l : List ℕ). get_elem? l i)
          (sym (codes-append p u) ∙ ap codes (d ∙ sym e) ∙ codes-append q v),
    )

-- Prefixes that differ in a letter.
only_one :
    (i a b : ℕ) (name p q : String)
    → a ≢ b
    → ((u : List ℕ) → get_elem? (codes p ++ u) i ≡ some a)
    → ((u : List ℕ) → get_elem? (codes q ++ u) i ≡ some b)
    → starts_with name p ≡ true
    → starts_with name q ≡ false
only_one i a b name p q differ pa qb h = elim (Bool-cases (starts_with name q)) [
  | inl t ↦ let (u, v, e) = letter i name p q h t in absurd (differ (from (sym (pa u) ∙ e ∙ qb v)))
  | inr f ↦ f
]
  where
    from : some a ≡ some b → a ≡ b
    from e = cc

-- The fifth letter tells the products' names apart.
no_accp :
    (name : String) → starts_with name "MST_JPLS_" ≡ true → starts_with name "MST_ACCP_" ≡ false
no_accp name =
    only_one 4 b'J' b'A' name "MST_JPLS_" "MST_ACCP_" (λ e. absurd (omega arith)) (λ u. refl)
      (λ u. refl)

no_vnse3 :
    (name : String) → starts_with name "MST_JPLS_" ≡ true → starts_with name "MST_VNSE3_" ≡ false
no_vnse3 name =
    only_one 4 b'J' b'V' name "MST_JPLS_" "MST_VNSE3_" (λ e. absurd (omega arith)) (λ u. refl)
      (λ u. refl)

not_venus :
    (name : Option String)
    → matches_name jupiter_runtime name ≡ true
    → matches_name venus_runtime name ≡ false
unfolding matches_name venus_runtime venus_profile jupiter_runtime jupiter_profile
not_venus none h = absurd cc
not_venus (some name) h = elim (Bool-cases (str_eq name "")) [
  | inl e ↦ rw e
  | inr e ↦ elim (Bool-cases (starts_with name "MST_JPLS_")) [
    | inl t ↦ rw (e, no_accp name t, no_vnse3 name t)
    | inr f ↦ absurd (impossible (rw (e, f) at h))
  ]
]
  where
    impossible : false ≡ true → ⊥
    impossible q = cc

some_injective : (a b : ProductRuntime) → some a ≡ some b → a ≡ b
some_injective a b e = cc

venus_found :
    (name : Option String)
    → matches_name venus_runtime name ≡ true
    → runtime_for_name name ≡ some venus_runtime
unfolding runtime_for_name
venus_found name h = rw h

jupiter_found :
    (name : Option String)
    → matches_name jupiter_runtime name ≡ true
    → runtime_for_name name ≡ some jupiter_runtime
unfolding runtime_for_name
jupiter_found name h = rw (not_venus name h, h)

-- The registry finds an enabled product by its identifier and by every name that it matches, so
-- that no name matches two products.
pub registry_finds :
    (i : ℕ) (runtime : ProductRuntime) (name : Option String)
    → get_elem? runtime_products i ≡ some runtime
    → matches_name runtime name ≡ true
    → (runtime_for_id runtime.profile.product_id ≡ some runtime)
      × (runtime_for_name name ≡ some runtime)
unfolding runtime_for_id venus_runtime venus_profile jupiter_runtime jupiter_profile
registry_finds zero runtime name e h =
    subst
      (λ (r : ProductRuntime).
        matches_name r name ≡ true
        → (runtime_for_id r.profile.product_id ≡ some r) × (runtime_for_name name ≡ some r))
      (some_injective venus_runtime runtime e) (λ m. (refl, venus_found name m)) h
registry_finds (suc zero) runtime name e h =
    subst
      (λ (r : ProductRuntime).
        matches_name r name ≡ true
        → (runtime_for_id r.profile.product_id ≡ some r) × (runtime_for_name name ≡ some r))
      (some_injective jupiter_runtime runtime e) (λ m. (refl, jupiter_found name m)) h
registry_finds (suc (suc i)) runtime name e h = absurd cc
