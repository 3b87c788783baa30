-- ===== src/Catalog/Slugs.antt =====
-- Slugs (catalog/models.py): the text of a page's address, made from a name and unlike the slugs in use. Django's
-- `slugify` is a parameter. A row of a table is its primary key and its slug.
pub mod Free
use shop_orbit.Base.{
  ℕ, zero, suc, ◌==◌, Bool, not, List, [], ◌∷◌, ◌++◌, Option, none, some, if◌then◌else◌, Text,
  same_text, decimal, length, any_of, select,
}

pub record SlugRow : Type 0 where
  pub pk : ℕ
  pub slug : Text

-- `queryset.filter(slug=...).exists()`
abbrev pub exists : Text → List SlugRow → Bool
exists t rows = any_of (λ r. same_text r.slug t) rows

-- `queryset.exclude(pk=instance.pk)`, for an instance that has a key
abbrev pub other_rows : Option ℕ → List SlugRow → List SlugRow
other_rows none rows = rows
other_rows (some pk) rows = select (λ r. not (r.pk == pk)) rows

-- `f"{slug}-{counter}"`
abbrev pub suffixed : Text → ℕ → Text
suffixed slug counter = slug ++ 45 ∷ decimal counter

-- The `while` loop, from a candidate and the counter of the next, with fuel
abbrev pub first_free : ℕ → Text → (Text → Bool) → Text → ℕ → Option Text
first_free zero slug is_taken unique_slug counter = none
first_free (suc fuel) slug is_taken unique_slug counter =
    let rest = first_free fuel slug is_taken (suffixed slug counter) (suc counter) in
    if is_taken unique_slug then rest else some unique_slug

module _ (slugify : Text → Text) where
  -- `unique_slugify`, on as many rounds as there are rows and one more
  unfoldable pub unique_slugify : Option ℕ → Text → List SlugRow → Option Text
  unique_slugify pk base_value queryset =
      let slug = slugify base_value in
      let rows = other_rows pk queryset in
      first_free (suc (length rows)) slug (λ t. exists t rows) slug 2

  -- `save()` of a department, a category, a subcategory or a product, on the slug that the instance has
  unfoldable pub slug_on_save : Option ℕ → Text → Text → List SlugRow → Option Text
  unfolding unique_slugify
  slug_on_save pk [] name queryset = unique_slugify pk name queryset
  slug_on_save pk (c ∷ cs) name queryset = some (c ∷ cs)
