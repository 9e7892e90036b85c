-- ===== src/Entity/Increase.antt =====
-- The changes that `detect_expansion_increases` of custom_components/marstek_ble/entity.py reports.
use ha_marstek_ble.Prelude.{
  ℕ, ◌+◌, ◌≤◌, String, false, inl, inr, Option, none, some, List, [], ◌∷◌, ◌++◌, ltb, ltb→lt, ◌≡◌,
  refl, sym, ap, ◌∙◌, subst, arith, All, Bool-cases,
}
use ha_marstek_ble.Result.{ok, >>=-ok}
use ha_marstek_ble.Schema.Tree.{PathElement, DataPath}
use ha_marstek_ble.ProductRuntime.{path_key}
use ha_marstek_ble.Entity.{
  RepeatedSectionSpec, Content, plain, nested, listed, Instance, end, attribute, Items, stop, item,
  active_count, resolve, DataField, len,
}
use ha_marstek_ble.Entity.Resolve.{ok_injective}
use ha_marstek_ble.Entity.Plan.{ProductProfile, EntityPlan, StrDict, get_key}
use ha_marstek_ble.Entity.Expansion.{
  ExpansionChange, change_of, or_else, find_increases, find_in_value, find_in_items,
  detect_expansion_increases,
}
use ha_marstek_ble.Entity.Sections.{
  Section, path_of, sections, sections_of_value, sections_of_items, IsSection, sections-IsSection,
}
use ha_marstek_ble.Entity.Live.{IsDataclass}
use ha_marstek_ble.Entity.Report.{
  Reported, AreReported, active_below, active_count-HasActive, refused,
}

module _ (configured : StrDict ℕ) (product_id : String) where
  append_assoc : (xs ys zs : List ExpansionChange) → xs ++ (ys ++ zs) ≡ (xs ++ ys) ++ zs
  append_assoc [] ys zs = refl
  append_assoc (x ∷ xs) ys zs = ap (λ l. x ∷ l) (append_assoc xs ys zs)

  append_nil : (xs : List ExpansionChange) → xs ≡ xs ++ []
  append_nil [] = refl
  append_nil (x ∷ xs) = ap (λ l. x ∷ l) (append_nil xs)

  AreReported-append :
      (first second : List Section) (xs ys : List ExpansionChange)
      → AreReported configured product_id first xs
      → AreReported configured product_id second ys
      → AreReported configured product_id (first ++ second) (xs ++ ys)
  AreReported-append [] second xs ys h k = rw h k
  AreReported-append (section ∷ first) second xs ys (n, found, more, d, m, r, h, e) k = (
    n,
    found,
    more ++ ys,
    d,
    m,
    r,
    AreReported-append first second more ys h k,
    rw e (sym (append_assoc found more ys)),
  )

  change_of-Reported :
      (section : Section) (discovered : ℕ) (o : Option ℕ)
      → Reported product_id section discovered o
          (change_of (path_of section) (or_else o discovered) discovered section.spec product_id)
  change_of-Reported section discovered none =
      let e : ltb discovered discovered ≡ false = ground arith in rw e refl
  change_of-Reported section discovered (some old) = elim (Bool-cases (ltb old discovered)) [
    | inl t ↦ inl (ltb→lt old discovered t, rw t refl)
    | inr f ↦ inr (above old discovered f, rw f refl)
  ]
    where
      above : (m n : ℕ) → ltb m n ≡ false → n ≤ m
      above m n f = ground arith

  -- The report of a section, before those of the rest.
  AreReported-section :
      (section : Section) (rest : List Section) (discovered : ℕ) (more : List ExpansionChange)
      → active_count section.parent section.spec ≡ ok discovered
      → AreReported configured product_id rest more
      → AreReported configured product_id (section ∷ rest) (
          change_of
            (path_of section)
            (or_else (get_key (path_key (path_of section)) configured) discovered)
            discovered
            section.spec
            product_id
          ++ more)
  AreReported-section section rest discovered more d h = (
    discovered,
    change_of (path_of section)
        (or_else (get_key (path_key (path_of section)) configured) discovered) discovered
        section.spec product_id,
    more,
    active_count-HasActive section discovered d,
    active_below section.parent section.spec discovered d,
    change_of-Reported section discovered (get_key (path_key (path_of section)) configured),
    h,
    refl,
  )

  returned :
      (first : List Section) (xs changes : List ExpansionChange)
      → AreReported configured product_id first xs
      → ok xs ≡ ok changes
      → AreReported configured product_id first changes
  returned first xs changes h e =
      subst (AreReported configured product_id first) (ok_injective xs changes e) h

  mutual
    unfolding find_increases sections

    increases :
        (current rest : Instance) (path : DataPath) (changes : List ExpansionChange)
        → find_increases current rest path configured product_id ≡ ok changes
        → AreReported configured product_id (sections current rest path) changes
    increases current end path changes e = returned [] [] changes refl e
    increases current (attribute data_field value rest) path changes e =
        let field_path = path ++ PathElement.name data_field.name ∷ [] in
        let (found, f, e₁) =
          >>=-ok
            (find_in_value current data_field.repeated_section value field_path configured
              product_id)
            _ changes e in
        let (more, m, e₂) =
          >>=-ok (find_increases current rest path configured product_id) _ changes e₁ in
        returned _ (found ++ more) changes
          (AreReported-append
            (sections_of_value current data_field data_field.repeated_section value path)
            (sections current rest path) found more
            (value_increases current data_field data_field.repeated_section value path found f)
            (increases current rest path more m))
          e₂

    value_increases :
        (current : Instance) (data_field : DataField) (o : Option RepeatedSectionSpec)
        (value : Content) (place : DataPath) (changes : List ExpansionChange)
        → find_in_value current o value
            (place ++ PathElement.name data_field.name ∷ [])
            configured
            product_id
          ≡ ok changes
        → AreReported configured product_id
            (sections_of_value current data_field o value place)
            changes
    value_increases current data_field none (plain v) place changes e =
        returned [] [] changes refl e
    value_increases current data_field none (listed items) place changes e =
        returned [] [] changes refl e
    value_increases current data_field none (nested fs) place changes e =
        increases fs fs (place ++ PathElement.name data_field.name ∷ []) changes e
    value_increases current data_field (some spec) (plain v) place changes e =
        let section : Section = record {
          place = place;
          parent = current;
          data_field = data_field;
          spec = spec;
        } in
        let (discovered, d, e₁) = >>=-ok (active_count current spec) _ changes e in
        let (n, l, e₂) = >>=-ok (len (plain v)) _ changes e₁ in
        returned (section ∷ []) _ changes (AreReported-section section [] discovered [] d refl)
          (ap ok (sym (append_nil _)) ∙ e₂)
    value_increases current data_field (some spec) (nested fs) place changes e =
        let (discovered, d, e₁) = >>=-ok (active_count current spec) _ changes e in
        absurd (refused changes e₁)
    value_increases current data_field (some spec) (listed items) place changes e =
        let path = place ++ PathElement.name data_field.name ∷ [] in
        let section : Section = record {
          place = place;
          parent = current;
          data_field = data_field;
          spec = spec;
        } in
        let (discovered, d, e₁) = >>=-ok (active_count current spec) _ changes e in
        let (more, m, e₂) =
          >>=-ok (find_in_items items path 0 configured product_id) _ changes e₁ in
        returned (section ∷ sections_of_items items path 0) _ changes
          (AreReported-section section (sections_of_items items path 0) discovered more d
            (items_increases items path 0 more m))
          e₂

    items_increases :
        (items : Items) (path : DataPath) (i : ℕ) (changes : List ExpansionChange)
        → find_in_items items path i configured product_id ≡ ok changes
        → AreReported configured product_id (sections_of_items items path i) changes
    items_increases stop path i changes e = returned [] [] changes refl e
    items_increases (item (plain v) rest) path i changes e =
        items_increases rest path (i + 1) changes e
    items_increases (item (listed items) rest) path i changes e =
        items_increases rest path (i + 1) changes e
    items_increases (item (nested fs) rest) path i changes e =
        let (found, f, e₁) =
          >>=-ok (find_increases fs fs (path ++ PathElement.index i ∷ []) configured product_id) _
            changes e in
        let (more, m, e₂) =
          >>=-ok (find_in_items rest path (i + 1) configured product_id) _ changes e₁ in
        returned _ (found ++ more) changes
          (AreReported-append (sections fs fs (path ++ PathElement.index i ∷ []))
            (sections_of_items rest path (i + 1)) found more
            (increases fs fs (path ++ PathElement.index i ∷ []) found f)
            (items_increases rest path (i + 1) more m))
          e₂

-- What `detect_expansion_increases` returns for data in which no instance has two fields of one
-- name is what there is to report of the repeated sections of the data, one after the other and
-- each found in the data at its place: the count of the section's active items, at most the
-- section's count, when the plan has a lower count for its path, and nothing when it has not.
pub changes-AreReported :
    (profile : ProductProfile) (root : Instance) (plan : EntityPlan)
    (changes : List ExpansionChange)
    → IsDataclass root
    → detect_expansion_increases profile root plan ≡ ok changes
    → All (IsSection root) (sections root root [])
      × AreReported plan.repeated_counts profile.product_id (sections root root []) changes
unfolding detect_expansion_increases resolve
changes-AreReported profile root plan changes sound e = (
  sections-IsSection root root root [] refl (λ f h. h) sound.0 sound.1,
  increases plan.repeated_counts profile.product_id root root [] changes e,
)
