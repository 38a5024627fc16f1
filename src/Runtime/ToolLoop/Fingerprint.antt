-- ===== src/Runtime/ToolLoop/Fingerprint.antt =====
-- astrcontinuum/runtime/tool_loop.py: the identity of a tool call. `json.loads` without its two
-- hooks, `json.dumps` and `str.casefold` are an interface; the hooks are applied here to what the
-- parser read, object by object.
use Prim.Native.Char.{code}
use astrbot_plugin_astrconti.Prelude.{
  String, Bool, true, false, not, ◌&&◌, ◌||◌, List, [], ◌∷◌, Option, none, some, ◌≡◌, ◌↔◌, mem, Eq,
  from_iff, ◌==◌, string_eq, nat_eq, if◌then◌else◌, &&-true, beq_refl, eq_of_beq, is_blank,
}
use astrbot_plugin_astrconti.Domain.Event.{EventEnvelope, tool_call, event_type_eq}

mutual
  pub data Json : Type 0 where
    null : Json
    bool : Bool → Json
    number : String → Json
    constant : String → Json  -- NaN, Infinity, -Infinity
    text : String → Json
    array : Items → Json
    object : Fields → Json

  pub data Items : Type 0 where
    nil : Items
    cons : Json → Items → Items

  pub data Fields : Type 0 where
    end : Fields
    field : String → Json → Fields → Fields

pub record JsonText : Type 0 where
  pub read : String → Option Json
  pub canonical_json : Json → Option String
  pub casefold : String → String

abbrev pub keys : Fields → List String
keys end = []
keys (field k v fs) = k ∷ keys fs

abbrev pub get : String → Fields → Option Json
get k end = none
get k (field j v fs) = let rest = get k fs in if j == k then some v else rest

abbrev distinct : List String → Bool
distinct [] = true
distinct (k ∷ ks) = not (mem k ks) && distinct ks

unfoldable mutual
  -- `_unique_object` and `_reject_json_constant` raise nowhere in the value.
  pub hooks_accept : Json → Bool
  hooks_accept (constant c) = false
  hooks_accept (array xs) = hooks_accept_items xs
  hooks_accept (object fs) = distinct (keys fs) && hooks_accept_fields fs
  hooks_accept null = true
  hooks_accept (bool b) = true
  hooks_accept (number n) = true
  hooks_accept (text s) = true

  pub hooks_accept_items : Items → Bool
  hooks_accept_items nil = true
  hooks_accept_items (cons x xs) = hooks_accept x && hooks_accept_items xs

  pub hooks_accept_fields : Fields → Bool
  hooks_accept_fields end = true
  hooks_accept_fields (field k v fs) = hooks_accept v && hooks_accept_fields fs

-- `lstrip("$")`
abbrev lstrip_dollar : String → String
lstrip_dollar String.[] = String.[]
lstrip_dollar (String.◌∷◌ c s) =
    let rest = lstrip_dollar s in if code c == b'$' then rest else String.◌∷◌ c s

-- `replace("-", "_")`
abbrev dash_to_underscore : String → String
dash_to_underscore String.[] = String.[]
dash_to_underscore (String.◌∷◌ c s) =
    String.◌∷◌ (if code c == b'-' then "_" else c) (dash_to_underscore s)

abbrev pub normalized_key : JsonText → String → String
normalized_key j k = dash_to_underscore (lstrip_dollar (j.casefold k))

unfoldable mutual
  pub contains_lossy_marker : JsonText → Json → Bool
  contains_lossy_marker j (object fs) = lossy_fields j fs
  contains_lossy_marker j (array xs) = lossy_items j xs
  contains_lossy_marker j null = false
  contains_lossy_marker j (bool b) = false
  contains_lossy_marker j (number n) = false
  contains_lossy_marker j (constant c) = false
  contains_lossy_marker j (text s) = false

  pub lossy_items : JsonText → Items → Bool
  lossy_items j nil = false
  lossy_items j (cons x xs) = contains_lossy_marker j x || lossy_items j xs

  pub lossy_fields : JsonText → Fields → Bool
  lossy_fields j end = false
  lossy_fields j (field k v fs) =
      mem (normalized_key j k) ("truncated" ∷ "truncated_items" ∷ [])
      || (contains_lossy_marker j v || lossy_fields j fs)

pub record ToolFingerprint : Type 0 where
  pub tool : String
  pub arguments : String

abbrev pub fingerprint_beq : ToolFingerprint → ToolFingerprint → Bool
fingerprint_beq a b = a.tool == b.tool && a.arguments == b.arguments

fingerprint_of_beq : (a b : ToolFingerprint) → fingerprint_beq a b ≡ true → a ≡ b
fingerprint_of_beq a b h =
    let (e, f) = &&-true (a.tool == b.tool) (a.arguments == b.arguments) h in
    λ i. record {
      tool = eq_of_beq a.tool b.tool e i;
      arguments = eq_of_beq a.arguments b.arguments f i;
    }

fingerprint_beq_refl : (a : ToolFingerprint) → fingerprint_beq a a ≡ true
fingerprint_beq_refl a = simp (beq_refl a.tool, beq_refl a.arguments)

pub fingerprint_beq_iff : (a b : ToolFingerprint) → (fingerprint_beq a b ≡ true) ↔ (a ≡ b)
fingerprint_beq_iff a b = (fingerprint_of_beq a b, λ e. rw e (fingerprint_beq_refl b))

instance abbrev pub fingerprint_eq : Eq ToolFingerprint
fingerprint_eq = from_iff fingerprint_beq fingerprint_beq_iff

-- `metadata.get("kind") != expected_kind`, read the other way round
abbrev has_text : String → Option Json → Bool
has_text expected (some (text s)) = s == expected
has_text expected _ = false

-- A tool's name with its arguments, once both stand in the metadata.
abbrev pair_of : JsonText → Option Json → Option Json → Option ToolFingerprint
pair_of j (some (text tool)) (some arguments) =
    if is_blank tool then none else elim (j.canonical_json arguments) [
      | none ↦ none
      | some canonical ↦ some (record { tool = tool; arguments = canonical })
    ]
pair_of j _ _ = none

abbrev fingerprint_of : JsonText → String → Option Json → Option ToolFingerprint
fingerprint_of j expected_kind (some (object fs)) =
    if not (hooks_accept (object fs))
    then none
    else if not (has_text expected_kind (get "kind" fs)) || contains_lossy_marker j (object fs)
    then none
    else pair_of j (get "tool" fs) (get "arguments" fs)
fingerprint_of j expected_kind _ = none

unfoldable pub tool_fingerprint : JsonText → EventEnvelope → Option ToolFingerprint
unfolding hooks_accept hooks_accept_items hooks_accept_fields contains_lossy_marker lossy_items
    lossy_fields is_blank
tool_fingerprint j e =
    fingerprint_of j (if e.event_type == tool_call then "call" else "result") (j.read e.content)
