-- ===== src/Tests/Json.antt =====
-- A request of the protocol, written out and read back. No text is a floating-point number here.
use gtlibcpp.Common.{ℕ, ◌≡◌, refl, arith, false, [], none, to_string, codes}
use gtlibcpp.Result.{ok, parse_failed}
use gtlibcpp.Scan.{pos, negsuc, print_int, skip_ws, stoll, signed_number, prefixed, magnitude}
use gtlibcpp.Json.{
  Double, JsonValue, null, boolean, integer, string, array, object, no_values, value, no_members,
  member, json_encode, escape_all, escape,
}
use gtlibcpp.Json.Atoms.{IsPlain}
use gtlibcpp.Json.Decode.{no_value, parse_value, number_loop, parse_number, json_decode}
use gtlibcpp.Json.RoundTrip.{json_decode-json_encode}
use gtlibcpp.Json.Sizes.{json_decode-total}

abbrev pub no_doubles : Double
no_doubles = record { T = ℕ; show = λ x. []; stod = λ text. none; to_int = λ x. pos x }

abbrev request : JsonValue no_doubles
request = object (
    member (codes "id") (string (codes "a\\\"b\n")) (
      member (codes "method") (string (codes "resolve")) (
        member (codes "params")
          (object (
            member (codes "base") (integer (pos 4096)) (
              member (codes "offsets")
                (array (value (integer (negsuc 15)) (value null (value (boolean false) no_values))))
                no_members)))
          no_members)))

encoded :
    json_encode request
    ≡ codes
        "{\"id\":\"a\\\\\\\"b\\n\",\"method\":\"resolve\",\"params\":{\"base\":4096,\"offsets\":[-16,null,false]}}"
unfolding json_encode codes escape_all escape print_int to_string
encoded = refl

abbrev request_plain : IsPlain request
unfolding IsPlain codes
request_plain = ground arith

json_decode-json_encode_example : json_decode no_doubles (json_encode request) ≡ ok request
json_decode-json_encode_example = json_decode-json_encode request request_plain

-- A list that is never closed.
json_decode-total_example : (no_value no_doubles).code ≡ parse_failed
unfolding json_decode parse_value codes skip_ws parse_number number_loop stoll signed_number
    prefixed magnitude
json_decode-total_example = json_decode-total no_doubles (codes "[1,") (no_value no_doubles) refl
