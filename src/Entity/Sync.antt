-- ===== src/Entity/Sync.antt =====
-- Successive syncs of `ProductEntityManager` in
-- custom_components/marstek_ble/product_entity_platform.py.
use text.Mathlib.Text.{◌==◌ as str_eq}
use text.Mathlib.TextEquality.{eq_iff}
use ha_marstek_ble.Prelude.{
  String, Bool, true, false, ◌||◌, inl, inr, List, [], ◌∷◌, ◌++◌, map, ◌≡◌, refl, sym, ap, ◌∙◌,
  subst, All, All-imply, Bool-cases,
}
use ha_marstek_ble.Result.{Result, ok, ◌>>=◌, >>=-ok}
use ha_marstek_ble.ProductRuntime.{known}
use ha_marstek_ble.Entity.{EntityPlatform, Instance, EntityBinding, unique_key}
use ha_marstek_ble.Entity.Plan.{ProductProfile, EntityPlan, build_entity_plan}
use ha_marstek_ble.Entity.Manager.{sync, new_bindings, live_binding, same_platform}

-- The syncs of a list of data snapshots, one after the other: the known keys at the end.
unfoldable pub sync_all :
    ProductProfile → EntityPlatform → List Instance → List String → Result (List String)
unfolding sync
sync_all profile platform [] known_keys = ok known_keys
sync_all profile platform (root ∷ roots) known_keys = do
  synced ← sync profile platform root known_keys
  sync_all profile platform roots synced.1

known-append :
    (key : String) (ks ls : List String) → known key (ks ++ ls) ≡ known key ks || known key ls
known-append key [] ls = refl
known-append key (k ∷ ks) ls =
    ap (λ (b : Bool). str_eq k key || b) (known-append key ks ls)
    ∙ or_assoc (str_eq k key) (known key ks) (known key ls)
  where
    or_assoc : (a b c : Bool) → a || (b || c) ≡ (a || b) || c
    or_assoc true b c = refl
    or_assoc false b c = refl

append-nil : (ks : List String) → ks ++ [] ≡ ks
append-nil [] = refl
append-nil (k ∷ ks) = ap (λ (l : List String). k ∷ l) (append-nil ks)

or_first : (a b : Bool) → a ≡ true → a || b ≡ true
or_first true b h = refl
or_first false b h = absurd cc

or_second : (a b : Bool) → b ≡ true → a || b ≡ true
or_second true b h = refl
or_second false b h = h

or_neither : (a b : Bool) → a || b ≡ false → (a ≡ false) × (b ≡ false)
or_neither true b h = absurd cc
or_neither false b h = (refl, h)

-- The bindings that a sync adds are not known.
new_bindings-unknown :
    (platform : EntityPlatform) (known_keys : List String) (bindings : List EntityBinding)
    → All
        (λ (b : EntityBinding). known (unique_key b) known_keys ≡ false)
        (new_bindings platform known_keys bindings)
unfolding new_bindings
new_bindings-unknown platform known_keys [] = tt
new_bindings-unknown platform known_keys (b ∷ bindings) =
    elim (Bool-cases (same_platform b.platform platform)) [
      | inr f ↦ rw f (new_bindings-unknown platform known_keys bindings)
      | inl t ↦ elim (Bool-cases (known (unique_key (live_binding b)) known_keys)) [
        | inl s ↦ rw (t, s) (new_bindings-unknown platform known_keys bindings)
        | inr g ↦ rw (t, g) (g, new_bindings-unknown platform known_keys bindings)
      ]
    ]

-- Where all that was new is known, nothing is new.
nothing_new :
    (platform : EntityPlatform) (known_keys more : List String) (bindings : List EntityBinding)
    → ((key : String) → known key known_keys ≡ true → known key more ≡ true)
    → All
        (λ (b : EntityBinding). known (unique_key b) more ≡ true)
        (new_bindings platform known_keys bindings)
    → new_bindings platform more bindings ≡ []
unfolding new_bindings
nothing_new platform known_keys more [] grown h = refl
nothing_new platform known_keys more (b ∷ bindings) grown h =
    elim (Bool-cases (same_platform b.platform platform)) [
      | inr f ↦ rw f (nothing_new platform known_keys more bindings grown (rw f at h))
      | inl t ↦ elim (Bool-cases (known (unique_key (live_binding b)) known_keys)) [
        | inl s ↦
            rw (t, grown (unique_key (live_binding b)) s)
              (nothing_new platform known_keys more bindings grown (rw (t, s) at h))
        | inr g ↦
            let k = rw (t, g) at h in
            rw (t, k.0) (nothing_new platform known_keys more bindings grown k.1)
      ]
    ]

keys_known :
    (known_keys : List String) (added : List EntityBinding)
    → All
        (λ (b : EntityBinding). known (unique_key b) (known_keys ++ map unique_key added) ≡ true)
        added
keys_known known_keys added = all added λ key h.
    rw (known-append key known_keys (map unique_key added)) (or_second (known key known_keys) _ h)
  where
    all :
        (bs : List EntityBinding)
        → ((key : String)
            → known key (map unique_key bs) ≡ true
            → known key (known_keys ++ map unique_key added) ≡ true)
        → All
            (λ (b : EntityBinding).
              known (unique_key b) (known_keys ++ map unique_key added) ≡ true)
            bs
    all [] f = tt
    all (b ∷ bs) f =
        let key = unique_key b in
        (
          f key
              (or_first (str_eq key key) (known key (map unique_key bs)) ((eq_iff key key).1 refl)),
          all bs λ k h. f k (or_second (str_eq key k) (known k (map unique_key bs)) h),
        )

-- What a successful sync has added, from its plan.
synced :
    (profile : ProductProfile) (platform : EntityPlatform) (root : Instance)
    (known_keys : List String) (added : List EntityBinding) (known' : List String)
    → sync profile platform root known_keys ≡ ok (added, known')
    → (plan : EntityPlan) × (build_entity_plan profile root [] ≡ ok plan)
      × (new_bindings platform known_keys plan.entities ≡ added)
      × (known_keys ++ map unique_key added ≡ known')
unfolding sync
synced profile platform root known_keys added known' e =
    let (plan, b, e₁) = >>=-ok (build_entity_plan profile root []) _ (added, known') e in
    let (first, second) = parts _ _ e₁ in
    (
      plan,
      b,
      first,
      ap (λ (l : List EntityBinding). known_keys ++ map unique_key l) (sym first) ∙ second,
    )
  where
    parts : (x y : List EntityBinding × List String) → ok x ≡ ok y → (x.0 ≡ y.0) × (x.1 ≡ y.1)
    parts x y q =
        let same : x ≡ y = cc in
        (
          ap (λ (z : List EntityBinding × List String). z.0) same,
          ap (λ (z : List EntityBinding × List String). z.1) same,
        )

-- A sync that succeeded adds nothing when it is repeated on the same data, and leaves the known
-- keys as they are.
pub sync_again :
    (profile : ProductProfile) (platform : EntityPlatform) (root : Instance)
    (known_keys : List String) (added : List EntityBinding) (known' : List String)
    → sync profile platform root known_keys ≡ ok (added, known')
    → sync profile platform root known' ≡ ok ([], known')
unfolding sync
sync_again profile platform root known_keys added known' e =
    let (plan, b, first, second) = synced profile platform root known_keys added known' e in
    let none_new : new_bindings platform known' plan.entities ≡ [] =
      nothing_new platform known_keys known' plan.entities
        (λ key h.
          rw (sym second, known-append key known_keys (map unique_key added))
            (or_first (known key known_keys) _ h))
        (subst
          (λ (l : List EntityBinding).
            All (λ (x : EntityBinding). known (unique_key x) known' ≡ true) l)
          (sym first)
          (subst
            (λ (ks : List String).
              All (λ (x : EntityBinding). known (unique_key x) ks ≡ true) added)
            second (keys_known known_keys added))) in
    rw (b, none_new, append-nil known')

sync-grows :
    (profile : ProductProfile) (platform : EntityPlatform) (roots : List Instance)
    (known_keys known' : List String) (key : String)
    → sync_all profile platform roots known_keys ≡ ok known'
    → known key known' ≡ false
    → known key known_keys ≡ false
unfolding sync_all
sync-grows profile platform [] known_keys known' key e h =
    subst (λ (ks : List String). known key ks ≡ false) (sym (same e)) h
  where
    same : ok known_keys ≡ ok known' → known_keys ≡ known'
    same q = cc
sync-grows profile platform (root ∷ roots) known_keys known' key e h =
    let ((added, known₁), s, e₁) = >>=-ok (sync profile platform root known_keys) _ known' e in
    let (plan, b, first, second) = synced profile platform root known_keys added known₁ s in
    let later = sync-grows profile platform roots known₁ known' key e₁ h in
    (or_neither (known key known_keys) (known key (map unique_key added))
      (sym (known-append key known_keys (map unique_key added)) ∙ ap (known key) second ∙ later)).0

-- No entity is added twice by different syncs: whatever syncs come in between, the keys of what a
-- later one adds are none of the keys of what an earlier one has added.
pub sync_adds_once :
    (profile : ProductProfile) (platform : EntityPlatform) (first later : Instance)
    (between : List Instance) (known_keys known₁ known₂ known₃ : List String)
    (added added' : List EntityBinding)
    → sync profile platform first known_keys ≡ ok (added, known₁)
    → sync_all profile platform between known₁ ≡ ok known₂
    → sync profile platform later known₂ ≡ ok (added', known₃)
    → All (λ (b : EntityBinding). known (unique_key b) (map unique_key added) ≡ false) added'
sync_adds_once profile platform first later between known_keys known₁ known₂ known₃ added added' a b
      c =
    let (plan, p, f, grown) = synced profile platform first known_keys added known₁ a in
    let (plan', p', f', grown') = synced profile platform later known₂ added' known₃ c in
    All-imply (λ (x : EntityBinding). known (unique_key x) known₂ ≡ false) _ added'
      (λ x h.
        (or_neither (known (unique_key x) known_keys) (known (unique_key x) (map unique_key added))
          (sym (known-append (unique_key x) known_keys (map unique_key added))
            ∙ ap (known (unique_key x)) grown
            ∙ sync-grows profile platform between known₁ known₂ (unique_key x) b h)).1)
      (subst (All (λ (x : EntityBinding). known (unique_key x) known₂ ≡ false)) f'
        (new_bindings-unknown platform known₂ plan'.entities))
