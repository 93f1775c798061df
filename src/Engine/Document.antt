-- ===== src/Engine/Document.antt =====
-- The documents and results of engine/engine.go and engine/highlight.go. `F` is float64.
use go_search.Base.{Option, none, some, List, [], Str}
use go_search.Base.Map.{Map, lookup}

pub record Field (F : Type 0) : Type 0 where
  pub value : Str
  pub boost : F
  -- `none` is a nil slice.
  pub vector : Option (List F)

pub record Document (F : Type 0) : Type 0 where
  pub id : Str
  pub fields : Map (Field F)

pub record Highlight : Type 0 where
  pub field : Str
  pub snippet : Str

pub record Result (F : Type 0) : Type 0 where
  pub id : Str
  pub fields : Map (Field F)
  pub score : F
  pub highlights : List Highlight

-- `fields[name].Value`, empty for a missing field.
abbrev pub field_value : {F : Type 0} → Str → Map (Field F) → Str
field_value name fields = elim (lookup name fields) [ none ↦ [] | some f ↦ f.value ]
