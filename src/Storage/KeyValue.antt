-- ===== src/Storage/KeyValue.antt =====
-- The interface of storage/storage.go, as far as the engine's indexing uses it; a write that fails
-- leaves the error to be ignored, as the engine does.
use go_search.Base.{◌≡◌, Bool, Option, some, none, Str, same, if◌then◌else◌, is_some}
use go_search.Base.Bytes.{Bytes}

pub record KeyValue (S : Type 0) : Type 0 where
  pub put : Str → Bytes → S → S
  pub get : Str → S → Option Bytes
  pub delete : Str → S → S
  pub has : Str → S → Bool

-- What the comments of the interface promise.
pub record IsKeyValue {S : Type 0} (kv : KeyValue S) : Type 0 where
  pub get-put :
      (k j : Str) (v : Bytes) (s : S)
      → kv.get j (kv.put k v s) ≡ (if same k j then some v else kv.get j s)
  pub get-delete :
      (k j : Str) (s : S) → kv.get j (kv.delete k s) ≡ (if same k j then none else kv.get j s)
  pub has-get : (k : Str) (s : S) → kv.has k s ≡ is_some (kv.get k s)
