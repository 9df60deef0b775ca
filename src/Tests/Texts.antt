-- ===== src/Tests/Texts.antt =====
-- Texts for times, uuids and cursors that are read back.
use Prim.Native.String.compare.{cons-nil}
use Prim.Native.Char.{Char, code}
use mathlib.Core.Option
use webhook_delivery_engine.Prelude.{
  ◌*◌, ◌/◌, true, ◌==◌, zero, if◌then◌else◌, false, ltb, ap, str_eq, refl, none, suc, some, Option,
  String, ◌≡◌, ℕ,
}
use webhook_delivery_engine.Api.Cursor.{
  field, object, text, empty, cursor_json, IsCursorCodec, CursorCodec, Json,
}
use webhook_delivery_engine.Db.Reads.Listing.{IsCasts}
use webhook_delivery_engine.Db.Reads.{date, Casts}

-- A number as so many characters.
abbrev pub tally : ℕ → String
tally zero = String.[]
tally (suc n) = String.◌∷◌ "a" (tally n)

abbrev pub tally_size : String → ℕ
tally_size String.[] = 0
tally_size (String.◌∷◌ c s) = suc (tally_size s)

tally_size-tally : (n : ℕ) → tally_size (tally n) ≡ n
tally_size-tally zero = refl
tally_size-tally (suc n) = ap suc (tally_size-tally n)

-- A driver that reads times in tens.
abbrev pub casts : Casts
casts = record {
  timestamptz = λ s. some (tally_size s);
  uuid = λ s. some (tally_size s);
  uuid_text = tally;
  text_lt = λ s t. ltb (tally_size s) (tally_size t);
  to_date = λ t. t / 10 * 10;
  to_iso_string = tally;
  new_date = λ s. date (tally_size s);
  cast_error = record {
    is_error = true;
    name = "error";
    message = "invalid input syntax";
    code = some "22P02";
  };
  range_error = record {
    is_error = true;
    name = "RangeError";
    message = "Invalid time value";
    code = none;
  };
}

pub casts-IsCasts : IsCasts casts
casts-IsCasts = record {
  timestamptz-to_iso_string = λ t. ap some (tally_size-tally t);
  new_date-to_iso_string = λ t. ap date (tally_size-tally t);
  uuid-uuid_text = λ i. ap some (tally_size-tally i);
  text_lt-uuid_text = λ i j. rw (tally_size-tally i, tally_size-tally j) refl;
}

-- Two texts as one: each character of the first behind an `a`, then a `b`, then the second.
abbrev pub join : String → String → String
join String.[] t = String.◌∷◌ "b" t
join (String.◌∷◌ c s) t = String.◌∷◌ "a" (String.◌∷◌ c (join s t))

abbrev pub put : Char → Option (String × String) → Option (String × String)
put c none = none
put c (some (s, t)) = some (String.◌∷◌ c s, t)

abbrev pub split : String → Option (String × String)
split String.[] = none
split (String.◌∷◌ m String.[]) = some (String.[], String.[])
split (String.◌∷◌ m (String.◌∷◌ c s)) =
    let rest = put c (split s) in if code m == 98 then some (String.[], String.◌∷◌ c s) else rest

split-join : (s t : String) → split (join s t) ≡ some (s, t)
split-join String.[] String.[] = refl
split-join String.[] (String.◌∷◌ c t) = refl
split-join (String.◌∷◌ c s) t = rw (split-join s t) refl

abbrev pub joined_fields : Json → String
joined_fields (object (field _ (text s) (field _ (text t) empty))) = join s t
joined_fields _ = "x"

abbrev pub cursor_codec : CursorCodec
cursor_codec = record {
  to_base64url = λ s. s;
  from_base64url = λ s. s;
  stringify = joined_fields;
  parse = λ s. Option.map (λ p. cursor_json (record { updated_at = p.0; id = p.1 })) (split s);
}

join-filled : (s t : String) → str_eq (join s t) "" ≡ false
join-filled String.[] t = rw (cons-nil "b" t) refl
join-filled (String.◌∷◌ c s) t = rw (cons-nil "a" (String.◌∷◌ c (join s t))) refl

pub cursor_codec-IsCursorCodec : IsCursorCodec cursor_codec
cursor_codec-IsCursorCodec = record {
  from-to_base64url = λ s. refl;
  to_base64url-filled = λ s h. h;
  parse-stringify = λ c. rw (split-join c.updated_at c.id) refl;
  stringify-filled = λ c. join-filled c.updated_at c.id;
}
