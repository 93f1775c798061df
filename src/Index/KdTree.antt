-- ===== src/Index/KdTree.antt =====
-- index/kdtree.go: a K-D tree over the numeric fields of the documents. A node is a leaf with its
-- entries or a split; both carry the bounding box of what is below. `sort.Slice` is an argument.
pub mod Ranges
pub mod Deletion
use go_search.Base.{
  ℕ, zero, suc, ◌+◌, ◌/◌, ◌%◌, Bool, true, false, ◌&&◌, ◌||◌, not, Option, none, some, List, [],
  ◌∷◌, ◌++◌, leb, ◌==◌, if◌then◌else◌, length, take, drop, get_elem?, Str, same,
}
use go_search.Base.Map.{Map, lookup, lookup_or, insert, keys, StrSet}
use go_search.Base.Float.{Float64, min_of, max_of}

abbrev pub kd_leaf_size : ℕ
kd_leaf_size = 64

pub record FieldBound (F : Type 0) : Type 0 where
  pub field : Str
  pub gte : Option F
  pub lte : Option F
  pub gt : Option F
  pub lt : Option F

pub record KdEntry (F : Type 0) : Type 0 where
  pub values : Map F
  pub doc_id : Str
  pub deleted : Bool

pub record Box (F : Type 0) : Type 0 where
  pub min_vals : Map F
  pub max_vals : Map F

pub data KdNode (F : Type 0) : Type 0 where
  leaf : Box F → List (KdEntry F) → KdNode F
  split : Str → F → Box F → KdNode F → KdNode F → KdNode F

pub record KdTree (F : Type 0) : Type 0 where
  pub root : Option (KdNode F)
  pub fields : List Str

abbrev pub box_of : {F : Type 0} → KdNode F → Box F
box_of (leaf box entries) = box
box_of (split field val box left right) = box

abbrev pub new_kd_tree : (F : Type 0) → KdTree F
new_kd_tree F = record { root = none; fields = [] }

-- `sort.Slice` and `sort.SliceStable` on a slice, with the "less" that they are given, and
-- `sort.Strings`.
pub record Sorting : Type 1 where
  pub slice : {A : Type 0} → (A → A → Bool) → List A → List A
  pub stable : {A : Type 0} → (A → A → Bool) → List A → List A
  pub strings : List Str → List Str

unfoldable pub add_keys : {F : Type 0} → Map F → StrSet → StrSet
add_keys [] set = set
add_keys ((field, val) ∷ values) set = add_keys values (insert field tt set)

module _ (fl : Float64) where
  abbrev pub value_at : Str → KdEntry fl.F → fl.F
  value_at field entry = lookup_or fl.zero field entry.values

  -- A box grown by one value of one field, and by the values of an entry.
  unfoldable pub grow : Box fl.F → Str → fl.F → Box fl.F
  grow box field val = record {
    min_vals =
        if fl.lt val (lookup_or fl.zero field box.min_vals)
        then insert field val box.min_vals
        else box.min_vals;
    max_vals =
        if fl.lt (lookup_or fl.zero field box.max_vals) val
        then insert field val box.max_vals
        else box.max_vals;
  }

  unfoldable pub grow_all : Map fl.F → Box fl.F → Box fl.F
  unfolding grow
  grow_all [] box = box
  grow_all ((field, val) ∷ values) box = grow_all values (grow box field val)

  -- The leaf's box: infinities for every field, then all values of all entries.
  abbrev pub empty_box : List Str → Box fl.F → Box fl.F
  empty_box [] box = box
  empty_box (field ∷ fields) box = empty_box fields (record {
    min_vals = insert field fl.pos_inf box.min_vals;
    max_vals = insert field fl.neg_inf box.max_vals;
  })

  unfoldable pub grow_entries : List (KdEntry fl.F) → Box fl.F → Box fl.F
  unfolding grow_all
  grow_entries [] box = box
  grow_entries (entry ∷ entries) box = grow_entries entries (grow_all entry.values box)

  -- The box of a split: the least and the greatest of the two boxes, field by field.
  unfoldable pub join_boxes : List Str → Box fl.F → Box fl.F → Box fl.F → Box fl.F
  join_boxes [] a b box = box
  join_boxes (field ∷ fields) a b box = join_boxes fields a b (record {
    min_vals =
        insert field
          (min_of fl (lookup_or fl.zero field a.min_vals) (lookup_or fl.zero field b.min_vals))
          box.min_vals;
    max_vals =
        insert field
          (max_of fl (lookup_or fl.zero field a.max_vals) (lookup_or fl.zero field b.max_vals))
          box.max_vals;
  })

  abbrev pub no_box : Box fl.F
  no_box = record { min_vals = []; max_vals = [] }

  -- The split node of two subtrees; a nil subtree is a nil dereference, here no node.
  unfoldable pub split_node :
      List Str → Str → fl.F → Option (KdNode fl.F) → Option (KdNode fl.F) → Option (KdNode fl.F)
  unfolding join_boxes
  split_node fields field val none right = none
  split_node fields field val (some left) none = none
  split_node fields field val (some left) (some right) =
      some (split field val (join_boxes fields (box_of left) (box_of right) no_box) left right)

  -- All fields of all entries, each once.
  unfoldable pub field_set : List (KdEntry fl.F) → StrSet → StrSet
  unfolding add_keys
  field_set [] set = set
  field_set (entry ∷ entries) set = field_set entries (add_keys entry.values set)

  module _ (sorting : Sorting) where
    -- `sort.Slice` by the values of one field.
    unfoldable pub sort_by : Str → List (KdEntry fl.F) → List (KdEntry fl.F)
    sort_by field = sorting.slice (λ a b. fl.lt (value_at field a) (value_at field b))

    abbrev pub split_field_of : List Str → ℕ → Str
    split_field_of fields depth = elim (get_elem? fields (depth % length fields)) [
      | none ↦ []
      | some f ↦ f
    ]

    abbrev pub split_value : Str → ℕ → List (KdEntry fl.F) → fl.F
    split_value field i entries = elim (get_elem? entries i) [
      | none ↦ fl.zero
      | some e ↦ value_at field e
    ]

    -- `buildKDNode`: each level halves the entries, so as many levels as entries are enough.
    unfoldable pub build_kd_node : ℕ → List (KdEntry fl.F) → ℕ → List Str → Option (KdNode fl.F)
    unfolding grow_entries sort_by split_node
    build_kd_node zero entries depth fields = none
    build_kd_node (suc fuel) entries depth fields =
        let sorted = sort_by (split_field_of fields depth) entries in
        let median = length sorted / 2 in
        let node =
          split_node fields (split_field_of fields depth)
            (split_value (split_field_of fields depth) median sorted)
            (build_kd_node fuel (take median sorted) (depth + 1) fields)
            (build_kd_node fuel (drop median sorted) (depth + 1) fields) in
        if length entries == 0
        then none
        else if leb (length entries) kd_leaf_size
        then some (leaf (grow_entries entries (empty_box fields no_box)) entries)
        else node

    unfoldable pub build : List (KdEntry fl.F) → KdTree fl.F
    unfolding build_kd_node field_set
    build entries =
        let fields = sorting.strings (keys (field_set entries [])) in
        record { root = build_kd_node (suc (length entries)) entries 0 fields; fields = fields }

-- The first entry of the document in a leaf is marked.
unfoldable pub mark_deleted : {F : Type 0} → Str → List (KdEntry F) → List (KdEntry F)
mark_deleted doc_id [] = []
mark_deleted doc_id (entry ∷ entries) =
    if same entry.doc_id doc_id
    then record entry { deleted = true } ∷ entries
    else entry ∷ mark_deleted doc_id entries

unfoldable pub delete_from_node : {F : Type 0} → Str → KdNode F → KdNode F
unfolding mark_deleted
delete_from_node doc_id (leaf box entries) = leaf box (mark_deleted doc_id entries)
delete_from_node doc_id (split field val box left right) =
    split field val box (delete_from_node doc_id left) (delete_from_node doc_id right)

unfoldable pub delete_doc : {F : Type 0} → Str → KdTree F → KdTree F
unfolding delete_from_node
delete_doc doc_id t = record {
  root = elim t.root [ none ↦ none | some n ↦ some (delete_from_node doc_id n) ];
  fields = t.fields;
}

-- A write to the map of values that an entry of the tree shares with the index.
unfoldable pub write_value : {F : Type 0} → Str → Str → F → List (KdEntry F) → List (KdEntry F)
write_value field doc_id value [] = []
write_value field doc_id value (entry ∷ entries) =
    let rest = write_value field doc_id value entries in
    if not entry.deleted && same entry.doc_id doc_id
    then record entry { values = insert field value entry.values } ∷ rest
    else entry ∷ rest

unfoldable pub write_node : {F : Type 0} → Str → Str → F → KdNode F → KdNode F
unfolding write_value
write_node field doc_id value (leaf box entries) = leaf box (write_value field doc_id value entries)
write_node field doc_id value (split at val box left right) =
    split at val box (write_node field doc_id value left) (write_node field doc_id value right)
