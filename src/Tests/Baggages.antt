-- ===== src/Tests/Baggages.antt =====
-- Baggage, its contexts and its header.
use opentelemetry_go.Prelude.{
  ◌≡◌, refl, Bool, true, false, List, [], ◌∷◌, none, some, Bytes, codes, length, arith, replicate,
  ◌≤◌,
}
use opentelemetry_go.Propagation.Carrier.{map_carrier}
use opentelemetry_go.Propagation.Baggage.{
  inject_baggage, extract_baggage, extract_baggage-inject_baggage,
}
use opentelemetry_go.Baggage.{
  err_invalid_member, err_invalid_key, err_invalid_value, err_escape, err_member_bytes, failed,
  parsed, Property, Member, new_member, parse_member, validate_member,
}
use opentelemetry_go.Baggage.Map.{
  Item, ItemProperty, Baggage, empty_baggage, member, baggage_string, new_baggage, parse,
  set_member, delete_member,
}
use opentelemetry_go.Baggage.Context.{BaggageContext, from_context, context_with_baggage}
use opentelemetry_go.Baggage.RoundTrip.{IsWellFormed, parse-baggage_string}
use opentelemetry_go.Baggage.Limits.{IsNew, new_baggage-IsNew}

-- a=1 2;p;q=x,b=%
abbrev bag : Baggage
bag = record {
  list =
      (
        codes "a",
        record {
          value = codes "1+2";
          properties =
              record { key = codes "p"; value = []; has_value = false }
              ∷ record { key = codes "q"; value = codes "x"; has_value = true }
              ∷ [];
        },
      )
      ∷ (codes "b", record { value = codes "%"; properties = [] })
      ∷ [];
}

bag_written : baggage_string bag ≡ codes "a=1%2B2;p;q=x,b=%25"
unfolding baggage_string opentelemetry_go.Text.join opentelemetry_go.Baggage.member_string
    opentelemetry_go.Text.Escape.query_escape opentelemetry_go.Text.Escape.is_unreserved
    opentelemetry_go.Text.Escape.upper_hex
bag_written = refl

bag_read : parse (codes " a = 1%2b2 ; p ;q= x, b=%25") ≡ parsed bag
unfolding parse opentelemetry_go.Text.split parse_member opentelemetry_go.Text.cut
    opentelemetry_go.Baggage.matches_key opentelemetry_go.Text.trim_right
    opentelemetry_go.Text.trim_left opentelemetry_go.Baggage.is_key_byte
    opentelemetry_go.Baggage.is_value_byte opentelemetry_go.Text.Escape.unescape_from
    opentelemetry_go.Text.Space.trim_space opentelemetry_go.Text.Space.leading_space
    opentelemetry_go.Text.Space.trailing_space opentelemetry_go.Hex.from_hex_char
    opentelemetry_go.Prelude.eq_bytes
bag_read = refl

last_wins :
    parse (codes "a=1,a=2")
    ≡ parsed (record { list = (codes "a", record { value = codes "2"; properties = [] }) ∷ [] })
unfolding parse opentelemetry_go.Text.split parse_member opentelemetry_go.Text.cut
    opentelemetry_go.Text.Escape.unescape_from opentelemetry_go.Text.Space.trim_space
    opentelemetry_go.Text.Space.leading_space opentelemetry_go.Text.Space.trailing_space
    opentelemetry_go.Baggage.matches_key opentelemetry_go.Baggage.is_key_byte
    opentelemetry_go.Baggage.is_value_byte opentelemetry_go.Prelude.eq_bytes
last_wins = refl

refused_escape : parse (codes "a=%zz") ≡ failed err_escape
unfolding parse opentelemetry_go.Text.split parse_member opentelemetry_go.Text.cut
    opentelemetry_go.Text.Escape.unescape_from opentelemetry_go.Text.Space.trim_space
    opentelemetry_go.Text.Space.leading_space opentelemetry_go.Text.Space.trailing_space
    opentelemetry_go.Hex.from_hex_char
refused_escape = refl

refused_value : parse (codes "a=1%202") ≡ failed err_invalid_value
unfolding parse opentelemetry_go.Text.split parse_member opentelemetry_go.Text.cut
    opentelemetry_go.Text.Escape.unescape_from opentelemetry_go.Text.Space.trim_space
    opentelemetry_go.Text.Space.leading_space opentelemetry_go.Text.Space.trailing_space
    opentelemetry_go.Hex.from_hex_char opentelemetry_go.Baggage.matches_key
    opentelemetry_go.Baggage.is_key_byte opentelemetry_go.Baggage.is_value_byte
refused_value = refl

refused_member : parse (codes "a=1,") ≡ failed err_invalid_member
unfolding parse opentelemetry_go.Text.split parse_member opentelemetry_go.Text.cut
    opentelemetry_go.Text.Escape.unescape_from opentelemetry_go.Text.Space.trim_space
    opentelemetry_go.Text.Space.leading_space opentelemetry_go.Text.Space.trailing_space
    opentelemetry_go.Baggage.matches_key opentelemetry_go.Baggage.is_key_byte
    opentelemetry_go.Baggage.is_value_byte
refused_member = refl

-- An empty property is accepted; it is no valid one.
empty_property :
    parse (codes "a=1;")
    ≡ parsed (record {
      list =
          (
            codes "a",
            record {
              value = codes "1";
              properties = record { key = []; value = []; has_value = false } ∷ [];
            },
          )
          ∷ [];
    })
unfolding parse opentelemetry_go.Text.split parse_member opentelemetry_go.Text.cut
    opentelemetry_go.Text.Escape.unescape_from opentelemetry_go.Text.Space.trim_space
    opentelemetry_go.Text.Space.leading_space opentelemetry_go.Text.Space.trailing_space
    opentelemetry_go.Baggage.matches_key opentelemetry_go.Baggage.is_key_byte
    opentelemetry_go.Baggage.is_value_byte
empty_property = refl

-- A member that is read from a baggage cannot be put into one.
read_member_refused : set_member bag (member bag (codes "a")) ≡ (bag, some err_invalid_member)
unfolding set_member opentelemetry_go.Baggage.Map.lookup opentelemetry_go.Prelude.eq_bytes
read_member_refused = refl

bag-IsWellFormed : IsWellFormed bag
unfolding opentelemetry_go.Baggage.matches_key opentelemetry_go.Baggage.is_key_byte
    opentelemetry_go.Baggage.is_value_byte opentelemetry_go.Baggage.Map.lookup
    opentelemetry_go.Prelude.eq_bytes opentelemetry_go.Baggage.member_string
    opentelemetry_go.Text.Escape.query_escape opentelemetry_go.Text.Escape.is_unreserved
    opentelemetry_go.Text.join baggage_string
bag-IsWellFormed = record {
  valid = (
    record {
      key_ok = refl;
      value_ok = refl;
      properties_ok = (
        record { key_ok = refl; value_ok = refl; no_value = λ e. refl },
        (record { key_ok = refl; value_ok = refl; no_value = λ e. absurd (cc e) }, tt),
      );
    },
    (record { key_ok = refl; value_ok = refl; properties_ok = tt }, tt),
  );
  differ = (refl, (refl, tt));
  short = (omega arith, (omega arith, tt));
  few = omega arith;
  fits = omega arith;
}

parse-baggage_string_example : parse (baggage_string bag) ≡ parsed bag
parse-baggage_string_example = parse-baggage_string bag bag-IsWellFormed

abbrev no_set : Bool → BaggageContext Bool Bool → List (Bytes × Item) → BaggageContext Bool Bool
no_set hook ctx l = ctx

abbrev no_get : Bool → BaggageContext Bool Bool → List (Bytes × Item) → List (Bytes × Item)
no_get hook ctx l = l

abbrev background : BaggageContext Bool Bool
background = record { state = none }

extract_baggage-inject_baggage_example :
    from_context no_set no_get (
      extract_baggage no_set no_get map_carrier background (
        inject_baggage no_set no_get map_carrier
          (context_with_baggage no_set no_get background bag)
          []))
    ≡ bag
unfolding opentelemetry_go.Baggage.Context.list_from_context
    opentelemetry_go.Baggage.Context.context_with_list
extract_baggage-inject_baggage_example =
    extract_baggage-inject_baggage no_set no_get map_carrier
      (context_with_baggage no_set no_get background bag) background [] bag refl bag-IsWellFormed
      refl refl refl

abbrev given : List Member
given =
    record { key = codes "a"; value = codes "1"; properties = []; has_data = true }
    ∷ record {
      key = codes "a";
      value = codes "2";
      properties = record { key = codes "p"; value = []; has_value = false; has_data = true } ∷ [];
      has_data = true;
    }
    ∷ []

new_baggage-IsNew_example : IsNew given (new_baggage given)
unfolding validate_member opentelemetry_go.Baggage.matches_key opentelemetry_go.Baggage.is_key_byte
    opentelemetry_go.Baggage.is_value_byte
new_baggage-IsNew_example = new_baggage-IsNew given (refl, (refl, tt))
