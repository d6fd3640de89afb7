-- ===== src/Json/Nulls.antt =====
-- What `walk` of src/frontend/src/services/chat.tsx does to a parsed value.
use swarm_engine.Prelude.{◌≡◌, refl, ap, ap₂, ◌∙◌, inl, inr, false, if◌then◌else◌, Bool-cases}
use swarm_engine.Text.{Str}
use swarm_engine.Json.{
  Json, Items, Fields, undefined, null, bool, num, str, arr, obj, nil, cons, end, entry, is_null,
  strip, strip_items, strip_fields,
}

-- No `null` below the top of a value.
abbrev mutual
  pub NoNulls : Json → Type 0
  NoNulls (arr xs) = NoNullItems xs
  NoNulls (obj fs) = NoNullFields fs
  NoNulls _ = Unit

  pub NoNullItems : Items → Type 0
  NoNullItems nil = Unit
  NoNullItems (cons x xs) = (is_null x ≡ false) × NoNulls x × NoNullItems xs

  pub NoNullFields : Fields → Type 0
  NoNullFields end = Unit
  NoNullFields (entry k x fs) = (is_null x ≡ false) × NoNulls x × NoNullFields fs

is_null-strip : (x : Json) → is_null (strip x) ≡ is_null x
unfolding strip
is_null-strip undefined = refl
is_null-strip null = refl
is_null-strip (bool b) = refl
is_null-strip (num n) = refl
is_null-strip (str s) = refl
is_null-strip (arr xs) = refl
is_null-strip (obj fs) = refl

item_clean :
    (x : Json) (r : Items)
    → NoNulls (strip x)
    → NoNullItems r
    → NoNullItems (cons (if is_null x then undefined else strip x) r)
item_clean x r p q = elim (Bool-cases (is_null x)) [
  | inl e ↦ rw e (refl, tt, q)
  | inr e ↦ rw e (is_null-strip x ∙ e, p, q)
]

field_clean :
    (k : Str) (x : Json) (r : Fields)
    → NoNulls (strip x)
    → NoNullFields r
    → NoNullFields (if is_null x then r else entry k (strip x) r)
field_clean k x r p q = elim (Bool-cases (is_null x)) [
  | inl e ↦ rw e q
  | inr e ↦ rw e (is_null-strip x ∙ e, p, q)
]

mutual
  unfolding strip strip_items strip_fields

  clean : (x : Json) → NoNulls (strip x)
  clean undefined = tt
  clean null = tt
  clean (bool b) = tt
  clean (num n) = tt
  clean (str s) = tt
  clean (arr xs) = clean_items xs
  clean (obj fs) = clean_fields fs

  clean_items : (xs : Items) → NoNullItems (strip_items xs)
  clean_items nil = tt
  clean_items (cons x xs) = item_clean x (strip_items xs) (clean x) (clean_items xs)

  clean_fields : (fs : Fields) → NoNullFields (strip_fields fs)
  clean_fields end = tt
  clean_fields (entry k x fs) = field_clean k x (strip_fields fs) (clean x) (clean_fields fs)

mutual
  unfolding strip strip_items strip_fields

  keep : (x : Json) → NoNulls x → strip x ≡ x
  keep undefined h = refl
  keep null h = refl
  keep (bool b) h = refl
  keep (num n) h = refl
  keep (str s) h = refl
  keep (arr xs) h = ap arr (keep_items xs h)
  keep (obj fs) h = ap obj (keep_fields fs h)

  keep_items : (xs : Items) → NoNullItems xs → strip_items xs ≡ xs
  keep_items nil h = refl
  keep_items (cons x xs) h = rw h.0 (ap₂ cons (keep x h.1) (keep_items xs h.2))

  keep_fields : (fs : Fields) → NoNullFields fs → strip_fields fs ≡ fs
  keep_fields end h = refl
  keep_fields (entry k x fs) h = rw h.0 (ap₂ (entry k) (keep x h.1) (keep_fields fs h.2))

-- `walk` leaves no `null` below the top of any value, at any depth, and it changes nothing in a value
-- that has none; so a second walk changes nothing.
pub strip-NoNulls : (x : Json) → NoNulls (strip x) × (strip (strip x) ≡ strip x)
strip-NoNulls x = (clean x, keep (strip x) (clean x))
