-- ===== src/CommandParser/Examples.antt =====
-- Requests of a client, read with small readers. Numbers stand for floats.
use ssr_pre.Common.{
  List, ℕ, ◌≡◌, refl, [], ◌∷◌, Option, none, some, Bool, true, false, if◌then◌else◌, ltb,
}
use ssr_pre.Common.Text.{Text, codes, eq_text}
use ssr_pre.Geometry.{Floats}
use ssr_pre.Publisher
use ssr_pre.Publisher.{Call}
use ssr_pre.CommandParser.{
  Element, Readers, Channel, channel, or_else, update_children, update_source, read_channel_of,
}
use ssr_pre.CommandParser.Elements.{Parsed, parse_source, parse_element, parse_cmd}
use ssr_pre.CommandParser.Updates.{OldSources}
use ssr_pre.CommandParser.Requests.{AllConcern, parse_source-Concerns}

abbrev pub plain_numbers : Floats ℕ
plain_numbers = record {
  lit = λ n. n;
  greater = λ a b. ltb b a;
  db_to_linear = λ n. n;
  linear_to_db = λ n. n;
}

-- A number is its first byte.
abbrev pub first_byte : Text → Option ℕ
first_byte [] = none
first_byte (n ∷ t) = some n

abbrev pub read_word : Text → Option Bool
read_word t = if eq_text t (codes "true") then some true else none

abbrev pub first_channel : Text → Option Channel
first_channel [] = none
first_channel (n ∷ t) = some (channel n)

abbrev pub readers : Readers ℕ
readers = record {
  read_float = first_byte;
  read_id = first_byte;
  read_bool = read_word;
  read_model = λ t. none;
  read_channel = first_channel;
  read_time = first_byte;
}

-- <source id="3" mute="true"/>
abbrev pub muting : Element
muting = record {
  name = codes "source";
  attribute = λ a.
      if eq_text a (codes "id")
      then 3 ∷ []
      else if eq_text a (codes "mute")
      then codes "true"
      else [];
  children = [];
}

-- <source new="true" file="a.wav"/>
abbrev pub adding : Element
adding = record {
  name = codes "source";
  attribute = λ a.
      if eq_text a (codes "new")
      then codes "true"
      else if eq_text a (codes "file")
      then codes "a.wav"
      else [];
  children = [];
}

abbrev pub muted : Parsed ℕ
muted = record { calls = Publisher.set_source_mute 3 true ∷ []; goes_on = true }

pub muting_is_old : or_else (readers.read_bool (muting.attribute (codes "new"))) false ≡ false
unfolding eq_text
muting_is_old = refl

pub muting_id : readers.read_id (muting.attribute (codes "id")) ≡ some 3
unfolding eq_text
muting_id = refl

pub muting_parsed : parse_source plain_numbers readers muting ≡ some muted
unfolding parse_source update_source update_children read_channel_of eq_text
muting_parsed = refl

pub adding_is_new : or_else (readers.read_bool (adding.attribute (codes "new"))) false ≡ true
unfolding eq_text
adding_is_new = refl

abbrev pub is_some : {A : Type 0} → Option A → Bool
is_some none = false
is_some (some a) = true

unfoldable pub value : {A : Type 0} (o : Option A) → is_some o ≡ true → (a : A) × (o ≡ some a)
value none h = cc
value (some a) h = (a, refl)

pub adding_parses : is_some (parse_source plain_numbers readers adding) ≡ true
unfolding parse_source read_channel_of eq_text
adding_parses = refl

pub added : (p : Parsed ℕ) × (parse_source plain_numbers readers adding ≡ some p)
added = value (parse_source plain_numbers readers adding) adding_parses

-- <source/>, which ends a request.
abbrev pub nameless : Element
nameless = record muting { attribute = λ a. [] }

abbrev pub request : List Element
request = muting ∷ nameless ∷ muting ∷ []

pub request_parsed : parse_cmd plain_numbers readers request ≡ some muted.calls
unfolding parse_cmd parse_element parse_source update_source update_children read_channel_of eq_text
request_parsed = refl

pub request_is_old : OldSources readers request
unfolding eq_text
request_is_old = (refl, refl, (refl, refl, (refl, refl, tt)))

-- Witnesses.
parse_source-Concerns_example : AllConcern 3 muted.calls × (muted.goes_on ≡ true)
parse_source-Concerns_example =
    parse_source-Concerns plain_numbers readers muting 3 muted muting_is_old muting_id muting_parsed
