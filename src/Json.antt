-- ===== src/Json.antt =====
-- JSON values, as `JSON.parse` gives them and the handlers read them. Numbers are natural numbers.
-- `strip` is the local function `walk` of src/frontend/src/services/chat.tsx.
pub mod Nulls
use Prim.Native.Nat.{zero, suc, ◌<◌, ◌≤◌, max, min}
use swarm_engine.Prelude.{
  ℕ, ◌+◌, ◌-◌, ◌*◌, ◌/◌, ◌%◌, String, ◌≡◌, refl, sym, ap, ap₂, subst, ◌∙◌, fun_ext, ◌≢◌, ◌↔◌, ◌⊎◌,
  inl, inr, Bool, true, false, not, ◌&&◌, ◌||◌, Option, none, some, List, [], ◌∷◌, ◌++◌, map,
  append-nil, append_assoc, arith, ltb, leb, ◌==◌, if◌then◌else◌, ==_iff, ==_refl, Bool-cases,
  Option-cases, some_inj, length, get_elem?, take, drop, length-append, take-append-drop,
  length-drop, take-length-append, drop-append_add, last?, init, last?-append, init-append,
  init-append-last, any, all, filter, find, find_index, length-map,
}
use swarm_engine.Text.{Str, str_eq, truthy}

mutual
  pub data Json : Type 0 where
    undefined : Json
    null : Json
    bool : Bool → Json
    num : ℕ → Json
    str : Str → Json
    arr : Items → Json
    obj : Fields → Json

  pub data Items : Type 0 where
    nil : Items
    cons : Json → Items → Items

  pub data Fields : Type 0 where
    end : Fields
    entry : Str → Json → Fields → Fields

abbrev is_null : Json → Bool
is_null null = true
is_null _ = false

-- `walk`: in arrays `null` becomes `undefined`, in objects it is deleted, at every depth.
unfoldable mutual
  pub strip : Json → Json
  strip undefined = undefined
  strip null = null
  strip (bool b) = bool b
  strip (num n) = num n
  strip (str s) = str s
  strip (arr xs) = arr (strip_items xs)
  strip (obj fs) = obj (strip_fields fs)

  pub strip_items : Items → Items
  strip_items nil = nil
  strip_items (cons x xs) = cons (if is_null x then undefined else strip x) (strip_items xs)

  pub strip_fields : Fields → Fields
  strip_fields end = end
  strip_fields (entry k x fs) =
      if is_null x then strip_fields fs else entry k (strip x) (strip_fields fs)

unfoldable get_field : Str → Fields → Json
get_field k end = undefined
get_field k (entry j x fs) = if str_eq j k then x else get_field k fs

-- `value.k`, of a value that is not `null` or `undefined`; only an object has fields.
unfoldable pub get : Str → Json → Json
unfolding get_field
get k (obj fs) = get_field k fs
get k _ = undefined

-- A value that is a string, and not the empty one.
unfoldable pub text? : Json → Option Str
text? (str s) = if truthy s then some s else none
text? _ = none

unfoldable pub is_text : Json → Str → Bool
is_text (str s) t = str_eq s t
is_text _ t = false

abbrev to_list : Items → List Json
to_list nil = []
to_list (cons x xs) = x ∷ to_list xs

-- The elements of an array; anything else has none.
unfoldable pub elements : Json → List Json
elements (arr xs) = to_list xs
elements _ = []

abbrev pub number_or_zero : Json → ℕ
number_or_zero (num n) = n
number_or_zero _ = 0

abbrev pub text_or_empty : Json → Str
text_or_empty (str s) = s
text_or_empty _ = []

-- A value that `v.k` cannot be read of: it throws.
abbrev pub is_nullish : Json → Bool
is_nullish undefined = true
is_nullish null = true
is_nullish _ = false
