-- ===== src/Api/Cursor.antt =====
-- api/cursor.ts. Base64 and the text of JSON are parameters.
use webhook_delivery_engine.Prelude.{
  refl, false, if◌then◌else◌, str_eq, none, some, ◌≡◌, String, Option,
}
use webhook_delivery_engine.Db.Reads.{TextCursor}
use webhook_delivery_engine.Exec.{invalid_cursor, app_error, err, ok, Result}

mutual
  pub data Json : Type 0 where
    text : String → Json
    object : Fields → Json
    -- A number, a Boolean, null or an array.
    other : Json

  pub data Fields : Type 0 where
    empty : Fields
    field : String → Json → Fields → Fields

abbrev pub get_field : String → Fields → Option Json
get_field name empty = none
get_field name (field key value rest) = if str_eq key name then some value else get_field name rest

-- z.string()
abbrev pub as_text : Option Json → Option String
as_text none = none
as_text (some (text s)) = some s
as_text (some (object fields)) = none
as_text (some other) = none

-- `Buffer.from` never throws; `JSON.parse` does.
pub record CursorCodec : Type 0 where
  pub to_base64url : String → String
  pub from_base64url : String → String
  pub stringify : Json → String
  pub parse : String → Option Json

abbrev pub cursor_json : TextCursor → Json
cursor_json c = object (field "updatedAt" (text c.updated_at) (field "id" (text c.id) empty))

unfoldable pub encode_cursor : CursorCodec → TextCursor → String
encode_cursor j c = j.to_base64url (j.stringify (cursor_json c))

abbrev pub both : Option String → Option String → Option TextCursor
both (some updated_at) (some id) = some (record { updated_at = updated_at; id = id })
both _ _ = none

-- cursorSchema.safeParse
unfoldable pub safe_parse : Json → Option TextCursor
safe_parse (object fields) =
    both (as_text (get_field "updatedAt" fields)) (as_text (get_field "id" fields))
safe_parse (text s) = none
safe_parse other = none

abbrev pub validated : Option TextCursor → Result TextCursor
validated none = err (app_error 400 invalid_cursor)
validated (some c) = ok c

abbrev pub parsed : Option Json → Result TextCursor
parsed none = err (app_error 400 invalid_cursor)
parsed (some json) = validated (safe_parse json)

unfoldable pub decode_cursor : CursorCodec → String → Result TextCursor
unfolding safe_parse
decode_cursor j value = parsed (j.parse (j.from_base64url value))

-- What the two libraries document: what was written is read back, a text of JSON is not empty, and
-- only the empty text has an empty form.
pub record IsCursorCodec (j : CursorCodec) : Type 0 where
  pub from-to_base64url : (s : String) → j.from_base64url (j.to_base64url s) ≡ s
  pub to_base64url-filled :
      (s : String) → str_eq s "" ≡ false → str_eq (j.to_base64url s) "" ≡ false
  pub parse-stringify :
      (c : TextCursor) → j.parse (j.stringify (cursor_json c)) ≡ some (cursor_json c)
  pub stringify-filled : (c : TextCursor) → str_eq (j.stringify (cursor_json c)) "" ≡ false

-- A cursor that was encoded is decoded to itself, if the two libraries read back what they wrote.
pub decode-encode_cursor :
    (j : CursorCodec) (laws : IsCursorCodec j) (c : TextCursor)
    → decode_cursor j (encode_cursor j c) ≡ ok c
unfolding decode_cursor encode_cursor safe_parse
decode-encode_cursor j laws c = rw (laws.from-to_base64url _, laws.parse-stringify _) refl

pub encode_cursor-filled :
    (j : CursorCodec) (laws : IsCursorCodec j) (c : TextCursor)
    → str_eq (encode_cursor j c) "" ≡ false
unfolding encode_cursor
encode_cursor-filled j laws c = laws.to_base64url-filled _ (laws.stringify-filled _)
