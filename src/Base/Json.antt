-- ===== src/Base/Json.antt =====
-- The values of `json.loads` and of `yaml.safe_load`, and what the code asks of them. A number is the
-- text that Python prints for it. An object has each key once, in the order of its fields.
use analysis_package.Base.{
  ℕ, suc, Option, none, some, String, Bool, true, false, not, ◌||◌, str_eq, if◌then◌else◌,
}

mutual
  pub data Json : Type 0 where
    null : Json
    boolean : Bool → Json
    number : String → Json
    text : String → Json
    array : Items → Json
    object : Fields → Json

  pub data Items : Type 0 where
    nil : Items
    cons : Json → Items → Items

  pub data Fields : Type 0 where
    end : Fields
    field : String → Json → Fields → Fields

-- `d.get(key)`, where a missing key reads as None
unfoldable pub get_field : String → Fields → Json
get_field key end = null
get_field key (field k v fields) = if str_eq k key then v else get_field key fields

-- `key in d`
unfoldable pub has_field : String → Fields → Bool
has_field key end = false
has_field key (field k v fields) = str_eq k key || has_field key fields

-- `d[key] = v` in a copy of the dict
unfoldable pub set_field : String → Json → Fields → Fields
set_field key v end = field key v end
set_field key v (field k w fields) =
    let rest = set_field key v fields in if str_eq k key then field k v fields else field k w rest

-- `bool(v)`
unfoldable pub is_truthy : Json → Bool
is_truthy null = false
is_truthy (boolean b) = b
is_truthy (number n) = not (str_eq n "0" || str_eq n "0.0" || str_eq n "-0.0")
is_truthy (text s) = not (str_eq s "")
is_truthy (array nil) = false
is_truthy (array (cons x xs)) = true
is_truthy (object end) = false
is_truthy (object (field k v fields)) = true

-- `text in items`
unfoldable pub has_text_item : String → Items → Bool
has_text_item s nil = false
has_text_item s (cons (text t) items) = str_eq t s || has_text_item s items
has_text_item s (cons _ items) = has_text_item s items

-- `items.append(x)`
unfoldable pub append_item : Items → Json → Items
append_item nil x = cons x nil
append_item (cons y items) x = cons y (append_item items x)

-- `list(v)` of a text and of a dict
unfoldable pub letters : String → Items
letters String.[] = nil
letters (String.◌∷◌ c s) = cons (text (String.◌∷◌ c "")) (letters s)

unfoldable pub keys : Fields → Items
keys end = nil
keys (field k v fields) = cons (text k) (keys fields)

-- what iterates over a value; None stands for the TypeError
unfoldable pub items_of : Json → Option Items
items_of (array items) = some items
items_of (text s) = some (letters s)
items_of (object fields) = some (keys fields)
items_of _ = none

-- `d.get(key) or []`
unfoldable pub items_or_none : Json → Option Items
items_or_none v = if is_truthy v then items_of v else some nil

unfoldable pub count_items : Items → ℕ
count_items nil = 0
count_items (cons x xs) = suc (count_items xs)

-- `v == "…"`
unfoldable pub is_text : String → Json → Bool
is_text s (text t) = str_eq t s
is_text s _ = false
