-- ===== src/Hashing.antt =====
-- utils/hashing.py: canonical JSON and its digest. `json.dumps` with `hashlib` is a parameter of
-- the functions that need it, as a function from a JSON value to the text of its SHA-256 digest.
use Prim.Native.Nat.{Ordering}
use Prim.Native.String.{compare}
use schema_guard.Base.{ℕ, String, Bool, true, false, List, [], ◌∷◌, if◌then◌else◌}

-- A JSON value. A float is counted in millionths, as every float of the contracts is.
mutual
  pub data Json : Type 0 where
    null : Json
    bool : Bool → Json
    int float : ℕ → Json
    text : String → Json
    arr : Items → Json
    obj : Fields → Json

  pub data Items : Type 0 where
    nil : Items
    cons : Json → Items → Items

  pub data Fields : Type 0 where
    end : Fields
    field : String → Json → Fields → Fields

-- Python's order of texts: by code points.
unfoldable pub text_le : String → String → Bool
text_le s t = elim (compare s t) [ Ordering.gt ↦ false | _ ↦ true ]

-- `sorted(...)` of texts.
unfoldable pub insert_text : String → List String → List String
insert_text s [] = s ∷ []
insert_text s (t ∷ ts) = if text_le s t then s ∷ t ∷ ts else t ∷ insert_text s ts

unfoldable pub sort_texts : List String → List String
sort_texts [] = []
sort_texts (s ∷ ss) = insert_text s (sort_texts ss)

-- One step of `sorted(value, key=str)`, which is stable.
insert_field : String → Json → Fields → Fields
insert_field k v end = field k v end
insert_field k v (field j w rest) =
    if text_le k j then field k v (field j w rest) else field j w (insert_field k v rest)

unfoldable mutual
  unfolding insert_field text_le

  pub canonicalize : Json → Json
  canonicalize null = null
  canonicalize (bool b) = bool b
  canonicalize (int n) = int n
  canonicalize (float n) = float n
  canonicalize (text s) = text s
  canonicalize (arr xs) = arr (canonicalize_items xs)
  canonicalize (obj fs) = obj (canonicalize_fields fs)

  pub canonicalize_items : Items → Items
  canonicalize_items nil = nil
  canonicalize_items (cons v vs) = cons (canonicalize v) (canonicalize_items vs)

  pub canonicalize_fields : Fields → Fields
  canonicalize_fields end = end
  canonicalize_fields (field k v rest) = insert_field k (canonicalize v) (canonicalize_fields rest)

-- The SHA-256 digest of the rendered JSON text of a value.
abbrev pub Digest : Type 0
Digest = Json → String

unfoldable pub sha256_canonical_json : Digest → Json → String
unfolding canonicalize
sha256_canonical_json dumps_digest value = dumps_digest (canonicalize value)

-- The object with the given fields, in the order of the source's dictionary.
abbrev pub object : List (String × Json) → Json
object fs = obj (fields fs)
  where
    fields : List (String × Json) → Fields
    fields [] = end
    fields ((k, v) ∷ rest) = field k v (fields rest)
