-- ===== src/Realtime/Tickets/Plain.antt =====
-- Texts that spell their fields out: an instance that shows that the laws of `Texts` can hold.
use attendence_v.Prelude.{ℕ, zero, suc, ◌≡◌, refl, String, Option, some, List, [], ◌∷◌, map}
use attendence_v.Auth.Tokens.Plain.{
  put_number, get_number, put_string, get_string, get-put_number, get-put_string,
}
use attendence_v.Realtime.Tickets.{Texts, Loaded, object, text_field}

abbrev pub count : List (String × String) → ℕ
count [] = zero
count (field ∷ fields) = suc (count fields)

abbrev pub put_fields : List (String × String) → String
put_fields [] = ""
put_fields ((name, text) ∷ fields) = put_string name (put_string text (put_fields fields))

abbrev pub get_fields : ℕ → String → List (String × String)
get_fields zero s = []
get_fields (suc n) s =
    let (name, rest) = get_string s in
    let (text, later) = get_string rest in (name, text) ∷ get_fields n later

get-put_fields :
    (fields : List (String × String)) → get_fields (count fields) (put_fields fields) ≡ fields
get-put_fields [] = refl
get-put_fields ((name, text) ∷ fields) =
    rw
      (
        get-put_string name (put_string text (put_fields fields)),
        get-put_string text (put_fields fields),
        get-put_fields fields,
      )
      refl

abbrev pub dump : List (String × String) → String
dump fields = put_number (count fields) (put_fields fields)

abbrev pub load : String → Option Loaded
load s = let (n, rest) = get_number s in some (object (map text_field (get_fields n rest)))

pub load-dump :
    (fields : List (String × String)) → load (dump fields) ≡ some (object (map text_field fields))
load-dump fields =
    rw (get-put_number (count fields) (put_fields fields), get-put_fields fields) refl

abbrev pub parse_number : String → Option ℕ
parse_number s = some (get_number s).0

pub parse_number-put : (k : ℕ) → parse_number (put_number k "") ≡ some k
parse_number-put k = rw (get-put_number k "") refl

abbrev pub plain_texts : Texts
plain_texts = record {
  dumps = dump;
  loads = load;
  uuid_text = λ k. put_number k "";
  parse_uuid = parse_number;
  iso_moment = λ t. "now";
  loads-dumps = load-dump;
  parse_uuid-text = parse_number-put;
}
