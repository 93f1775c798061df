-- ===== src/Engine/Schema.antt =====
-- engine/mapping.go: the types of fields, inferred from their values. Whether `strconv.ParseFloat` takes
-- a text is an argument.
pub mod Promotion
use go_search.Base.{
  ℕ, zero, suc, ◌+◌, ◌*◌, ◌-◌, ◌^◌, Bool, true, false, ◌&&◌, ◌||◌, not, Option, none, some, List,
  [], ◌∷◌, ltb, leb, ◌==◌, if◌then◌else◌, length, Str, same, codes,
}
use go_search.Base.Map.{Map, lookup, insert}

pub data FieldType : Type 0 where
  text keyword integer float boolean skip : FieldType

pub record FieldMapping : Type 0 where
  pub type : FieldType
  pub index : Bool
  pub store : Bool
  pub explicit : Bool

pub record Schema : Type 0 where
  pub fields : Map FieldMapping

abbrev pub new_schema : Schema
new_schema = record { fields = [] }

-- `strconv.Atoi`: an optional sign and decimal digits, in the range of an int64.
unfoldable pub digits_value : ℕ → Str → Option ℕ
digits_value n [] = some n
digits_value n (c ∷ s) =
    let rest = digits_value (n * 10 + (c - 48)) s in if leb 48 c && leb c 57 then rest else none

unfoldable pub fits_below : ℕ → Str → Bool
unfolding digits_value
fits_below bound [] = false
fits_below bound (c ∷ s) = elim (digits_value 0 (c ∷ s)) [ none ↦ false | some n ↦ ltb n bound ]

unfoldable pub is_int : Str → Bool
unfolding fits_below
is_int [] = false
is_int (c ∷ s) =
    if c == b'-'
    then fits_below (2 ^ 63 + 1) s
    else if c == b'+'
    then fits_below (2 ^ 63) s
    else fits_below (2 ^ 63) (c ∷ s)

unfoldable pub has_space : Str → Bool
has_space [] = false
has_space (c ∷ s) = c == b' ' || has_space s

-- What `Resolve` promotes a field to when the types disagree.
abbrev pub promoted : FieldMapping
promoted = record { type = text; index = true; store = true; explicit = false }

abbrev pub inferred : FieldType → FieldMapping
inferred type = record { type = type; index = true; store = true; explicit = false }

-- `==` of two types.
abbrev pub same_type : FieldType → FieldType → Bool
same_type text text = true
same_type keyword keyword = true
same_type integer integer = true
same_type float float = true
same_type boolean boolean = true
same_type skip skip = true
same_type _ _ = false

module _ (is_float : Str → Bool) where
  unfoldable pub infer_type : Str → FieldType
  unfolding is_int has_space same
  infer_type value =
      if is_int value
      then integer
      else if is_float value
      then float
      else if same value (codes "true") || same value (codes "false")
      then boolean
      else if not (has_space value) && ltb (length value) 64
      then keyword
      else text

  -- What is returned and kept for a field, given what is known of it.
  unfoldable pub resolve_known : Option FieldMapping → FieldType → FieldMapping
  resolve_known none type = inferred type
  resolve_known (some fm) type =
      if fm.explicit then fm else if same_type fm.type type then fm else promoted

  -- `Resolve` never returns an error.
  unfoldable pub resolve : Str → Str → Schema → Schema × FieldMapping
  unfolding resolve_known infer_type
  resolve field value s =
      let fm = resolve_known (lookup field s.fields) (infer_type value) in
      (record { fields = insert field fm s.fields }, fm)

unfoldable pub set_field : Str → FieldMapping → Schema → Schema
set_field field fm s = record { fields = insert field (record fm { explicit = true }) s.fields }

unfoldable pub get_field : Str → Schema → Option FieldMapping
get_field field s = lookup field s.fields

-- `Fields` copies the map.
unfoldable pub schema_fields : Schema → Map FieldMapping
schema_fields s = s.fields
